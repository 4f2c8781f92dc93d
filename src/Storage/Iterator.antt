-- ===== src/Storage/Iterator.antt =====
-- `SliceIterator`, the iterator of the memory storage.
pub mod Laws
use padlock_cloud.Prelude.{
  ℕ, zero, suc, ◌+◌, ◌-◌, ◌≤◌, ◌≡◌, refl, ap, ◌∙◌, Bool, true, false, Option, none, some, List, [],
  ◌∷◌, Text, ltb, length, get_elem?, arith, if◌then◌else◌,
}

-- `i` begins with Go's zero value.
pub record SliceIterator : Type 0 where
  pub s : List Text
  pub i : ℕ

unfoldable pub new_iterator : List Text → SliceIterator
new_iterator s = record { s = s; i = 0 }

-- `iter.i < len(iter.s)-1`, where the right side may be -1.
unfoldable pub next : SliceIterator → Bool × SliceIterator
next iter =
    if ltb (iter.i + 1) (length iter.s)
    then (true, record iter { i = iter.i + 1 })
    else (false, iter)

-- The bytes that `Get` deserializes; `none` is an index out of range, which panics.
unfoldable pub current : SliceIterator → Option Text
current iter = get_elem? iter.s iter.i

unfoldable pub release : SliceIterator → SliceIterator
release iter = record iter { s = [] }

-- `for iter.Next() { iter.Get(…) }`, on fuel: what the calls of `Get` read.
unfoldable pub collect : ℕ → SliceIterator → List (Option Text)
unfolding next current
collect zero iter = []
collect (suc fuel) iter =
    let (more, iter') = next iter in
    let rest = collect fuel iter' in if more then current iter' ∷ rest else []
