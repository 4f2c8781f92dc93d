-- ===== src/Tracking/Launches.antt =====
-- What a sequence of launches tracks and counts, and how `track` settles.
use padlock_cloud.Prelude.{
  ℕ, suc, ◌+◌, ◌<◌, ◌≡◌, refl, Bool, true, false, Option, none, some, List, [], ◌∷◌, ◌++◌, String,
  arith, length, All,
}
use padlock_cloud.Tracking.{Stats, Launch, install, update, launch, is_first}

-- Launches in order, each with its version and time.
abbrev pub launches : List (String × ℕ) → Stats → List Launch × Stats
launches [] stats = ([], stats)
launches ((version, now) ∷ later) stats =
    let first = launch version now stats in
    let rest = launches later first.1 in (first.0 ++ rest.0, rest.1)

abbrev one_if_install : Launch → ℕ
one_if_install install = 1
one_if_install (update from) = 0

abbrev pub installs : List Launch → ℕ
installs [] = 0
installs (x ∷ xs) = one_if_install x + installs xs

abbrev pub count_of : Option ℕ → ℕ
count_of none = 0
count_of (some n) = n

installs-append : (xs ys : List Launch) → installs (xs ++ ys) ≡ installs xs + installs ys
installs-append [] ys = omega arith
installs-append (x ∷ xs) ys = omega (arith, installs-append xs ys)

abbrev pub first_installs : Bool → ℕ
first_installs true = 1
first_installs false = 0

launch_lem :
    (version : String) (now : ℕ) (stats : Stats)
    → 0 < now
    → (installs (launch version now stats).0 ≡ first_installs (is_first stats.first_launch))
      × (is_first (launch version now stats).1.first_launch ≡ false)
      × (count_of (launch version now stats).1.launch_count ≡ suc (count_of stats.launch_count))
unfolding launch
launch_lem version now stats h = (ground arith, ground arith, ground arith)

later_launches :
    (later : List (String × ℕ)) (stats : Stats)
    → All (λ l. 0 < l.1) later
    → is_first stats.first_launch ≡ false
    → (installs (launches later stats).0 ≡ 0)
      × (count_of (launches later stats).1.launch_count
          ≡ length later + count_of stats.launch_count)
later_launches [] stats h f = (refl, omega arith)
later_launches ((version, now) ∷ later) stats (h, hs) f =
    let (i, f', c) = launch_lem version now stats h in
    let (i', c') = later_launches later (launch version now stats).1 hs f' in
    let i₀ : installs (launch version now stats).0 ≡ 0 = rw f at i in
    (
      omega (
        arith,
        installs-append (launch version now stats).0
            (launches later (launch version now stats).1).0,
        i₀,
        i',
      ),
      omega (arith, c, c'),
    )

-- Over any launches at times that are not 0, "Install" is tracked once if no launch was recorded
-- before and never otherwise, and each launch is counted.
pub launches_lem :
    (version : String) (now : ℕ) (later : List (String × ℕ)) (stats : Stats)
    → 0 < now
    → All (λ l. 0 < l.1) later
    → let all = launches ((version, now) ∷ later) stats in
      (installs all.0 ≡ first_installs (is_first stats.first_launch))
      × (count_of all.1.launch_count ≡ suc (length later) + count_of stats.launch_count)
launches_lem version now later stats h hs =
    let (i, f, c) = launch_lem version now stats h in
    let (i', c') = later_launches later (launch version now stats).1 hs f in
    (
      omega (
        arith,
        installs-append (launch version now stats).0
            (launches later (launch version now stats).1).0,
        i,
        i',
      ),
      omega (arith, c, c'),
    )
