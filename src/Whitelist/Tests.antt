-- ===== src/Whitelist/Tests.antt =====
-- A whitelist of one line.
use padlock_cloud.Prelude.{◌≡◌, false, [], ◌∷◌, codes, text_eq}
use padlock_cloud.Whitelist.{new_whitelist, is_whitelisted}
use padlock_cloud.Whitelist.Laws.{is_line, is_whitelisted-new_whitelist}

is_whitelisted-new_whitelist_example :
    is_whitelisted (codes "a@b") (new_whitelist (codes "a@b " ∷ [])) ≡ false
unfolding is_line text_eq
is_whitelisted-new_whitelist_example =
    is_whitelisted-new_whitelist (codes "a@b") (codes "a@b " ∷ [])
