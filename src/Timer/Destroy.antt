-- ===== src/Timer/Destroy.antt =====
-- timer.c: `zx_timer_destroy`, as the list of the addresses that it gives to `free`, in order. The
-- addresses of the timer and of its array of spokes are arguments; the callback is never called.
use clibrary.Base.{ℕ, suc, ◌≡◌, refl, ap, List, [], ◌∷◌, ◌++◌, length, length-append, arith}
use clibrary.Timer.{Elem, timer_queue, timer_wheel, Timer}
use clibrary.Timer.Wheel.Check.{total}

-- The `while` over one tail queue.
abbrev free_queue : List Elem → List ℕ
free_queue [] = []
free_queue (e ∷ es) = e.address ∷ free_queue es

-- The `for` over the spokes.
abbrev free_spokes : List (List Elem) → List ℕ
free_spokes [] = []
free_spokes (es ∷ ess) = free_queue es ++ free_spokes ess

unfoldable pub destroy : ℕ → ℕ → Timer → List ℕ
destroy timer spokes t = elim t.body [
  | timer_queue q ↦ free_queue q.queue ++ timer ∷ []
  | timer_wheel w ↦ free_spokes w.spokes ++ spokes ∷ timer ∷ []
]

length-free_queue : (es : List Elem) → length (free_queue es) ≡ length es
length-free_queue [] = refl
length-free_queue (e ∷ es) = ap suc (length-free_queue es)

-- As many calls of `free` as the spokes have elements.
length-free_spokes : (ess : List (List Elem)) → length (free_spokes ess) ≡ total ess
unfolding total
length-free_spokes [] = refl
length-free_spokes (es ∷ ess) = omega (
  arith,
  length-append (free_queue es) (free_spokes ess),
  length-free_queue es,
  length-free_spokes ess,
)
