-- ===== src/Hashmap/Session.antt =====
-- hashmap.c: a run of calls of `hashmap_put` and `hashmap_get` on one map, without
-- `hashmap_remove`, against the calls on the map from keys to values. The strings that were given as
-- keys keep their bytes in the meantime.
use clibrary.Base.{
  ℕ, ◌*◌, ◌^◌, ◌<◌, ◌≡◌, refl, ap, Bool, true, false, Option, none, some, List, [], ◌∷◌, arith,
}
use mathlib.Core.Path.{subst}
use clibrary.Hashmap.{HashMap, new_map, get, initial_size}
use clibrary.Hashmap.Rehash.{Status, map_ok, map_omem, put}
use clibrary.Hashmap.Grow.{Leaves, ended}
use clibrary.Hashmap.Total.{put-returns, more_slots}
use clibrary.Hashmap.Refine.{
  View, nothing, update, Sub, Refines, Results, blank-Refines, put-Results,
}

pub data Call : Type 0 where
  putting : List ℕ → ℕ → Call
  getting : List ℕ → Call

pub data Reply : Type 0 where
  status : Status → Reply
  value : Option ℕ → Reply

-- The replies of a map from keys to values. A put that is out of memory may lose entries.
pub data Answers : View → List Call → List Reply → Type 0 where
  done : (f : View) → Answers f [] []
  read :
      {cs : List Call} {rs : List Reply} (f : View) (key : List ℕ)
      → Answers f cs rs
      → Answers f (getting key ∷ cs) (value (f key) ∷ rs)
  written :
      {cs : List Call} {rs : List Reply} (f : View) (key : List ℕ) (v : ℕ)
      → Answers (update key v f) cs rs
      → Answers f (putting key v ∷ cs) (status map_ok ∷ rs)
  short :
      {cs : List Call} {rs : List Reply} (f g : View) (key : List ℕ) (v : ℕ)
      → Sub g f
      → Answers g cs rs
      → Answers f (putting key v ∷ cs) (status map_omem ∷ rs)

pub Leaves-some :
    (P : HashMap → Status → Type 0) (m : HashMap) (s : Status) → Leaves P (some (m, s)) → P m s
Leaves-some P m s (ended h) = h

module _ (calloc : ℕ → Bool) (fuel : ℕ) where
  -- The replies of a map to the calls, none if a call does not end.
  unfoldable pub replies : List Call → HashMap → Option (List Reply)
  replies [] m = some []
  replies (getting key ∷ cs) m = elim (replies cs m) [
    | none ↦ none
    | some rs ↦ some (value (get m key) ∷ rs)
  ]
  replies (putting key v ∷ cs) m = elim (put calloc fuel m key v) [
    | none ↦ none
    | some (m', s) ↦ elim (replies cs m') [ none ↦ none | some rs ↦ some (status s ∷ rs) ]
  ]

  module _ (limit : ℕ) (fails : (n : ℕ) → limit < n → calloc n ≡ false) (some_left : 0 < fuel) where
    written-Answers :
        (m m' : HashMap) (f : View) (key : List ℕ) (v : ℕ) (s : Status) (cs : List Call)
        → put calloc fuel m key v ≡ some (m', s)
        → Results (update key v f) f m' s
        → ((g : View)
            → Refines m' g
            → (rs : List Reply) × (replies cs m' ≡ some rs) × Answers g cs rs)
        → (rs : List Reply) × (replies (putting key v ∷ cs) m ≡ some rs)
          × Answers f (putting key v ∷ cs) rs
    unfolding replies
    written-Answers m m' f key v map_ok cs e h next =
        let (rs, r, a) = next (update key v f) h in
        (status map_ok ∷ rs, rw (e, replies, r) refl, written f key v a)
    written-Answers m m' f key v map_omem cs e h next =
        let (rs, r, a) = next (get m') (h.0, λ k. refl) in
        (status map_omem ∷ rs, rw (e, replies, r) refl, short f (get m') key v h.1 a)

    replies-Refines :
        (cs : List Call) (m : HashMap) (f : View)
        → Refines m f
        → limit < m.table_size * 2 ^ fuel
        → (rs : List Reply) × (replies cs m ≡ some rs) × Answers f cs rs
    unfolding replies
    replies-Refines [] m f h lt = ([], refl, done f)
    replies-Refines (getting key ∷ cs) m f h lt =
        let (rs, r, a) = replies-Refines cs m f h lt in
        (value (f key) ∷ rs, rw (r) (ap (λ v. some (value v ∷ rs)) (h.1 key)), read f key a)
    replies-Refines (putting key v ∷ cs) m f h lt =
        let (m', s, e, _, grown) = put-returns calloc limit fails fuel m key v h.0.0 some_left lt in
        let result : Results (update key v f) f m' s =
          Leaves-some _ m' s
            (subst (Leaves (Results (update key v f) f)) e (put-Results calloc fuel m f key v h)) in
        written-Answers m m' f key v s cs e result (λ g k.
          replies-Refines cs m' g k
            (more_slots limit m.table_size m'.table_size (2 ^ fuel) grown lt))

    -- On a map that `hashmap_new` made, where every allocation of more than `limit` slots fails and
    -- the fuel is enough to double the first 25600 slots beyond it: any run of calls of
    -- `hashmap_put` and `hashmap_get` ends, and the replies are those of a map from keys to values that
    -- is empty at first: a put that returns MAP_OK writes the value at the key, a get gives the
    -- value that was written last or MAP_MISSING, and only a put that returns MAP_OMEM may lose entries.
    pub replies-Answers :
        (cs : List Call)
        → limit < initial_size * 2 ^ fuel
        → (m : HashMap) × (rs : List Reply) × (new_map true true ≡ some m)
          × (replies cs m ≡ some rs)
          × Answers nothing cs rs
    unfolding new_map
    replies-Answers cs lt =
        let (rs, r, a) =
          replies-Refines cs _ nothing (blank-Refines initial_size (omega arith)) lt in
        (_, rs, refl, r, a)
