-- ===== src/Ring/Try/Queue.antt =====
-- What the calls that do not wait promise: a queue of values, oldest first, with a limit.
use clibrary.Base.{
  ℕ, Bool, true, false, Option, none, some, List, [], ◌∷◌, ◌++◌, length, ◌==◌, if◌then◌else◌,
}

-- What a client asks, and what it is told: whether its value went in, or the value that came out.
pub data Request : Type 0 where
  put : ℕ → Request
  get : Request

pub data Reply : Type 0 where
  stored : Bool → Reply
  fetched : Option ℕ → Reply

unfoldable pub offer : ℕ → List ℕ → ℕ → Bool × List ℕ
offer limit q value = if length q == limit then (false, q) else (true, q ++ value ∷ [])

unfoldable pub poll : List ℕ → Option ℕ × List ℕ
poll [] = (none, [])
poll (x ∷ q) = (some x, q)

unfoldable pub serve : ℕ → List ℕ → List Request → List Reply
serve limit q [] = []
serve limit q (put v ∷ rs) = stored (offer limit q v).0 ∷ serve limit (offer limit q v).1 rs
serve limit q (get ∷ rs) = fetched (poll q).0 ∷ serve limit (poll q).1 rs
