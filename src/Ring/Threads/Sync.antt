-- ===== src/Ring/Threads/Sync.antt =====
-- ring_buffer.c: the two locks and the two conditions of a buffer on which one thread writes and one
-- reads. Every statement is about one thread and its peer, and holds of either as the first.
use clibrary.Base.{Bool, true, false, not, ◌&&◌, ◌||◌, some, ◌≡◌, refl, arith}
use mathlib.Core.Bool.{false≢true}
use clibrary.Ring.{Mode, blocking, polling}
use clibrary.Ring.Threads.{
  Pc, idle, testing, failing, sleeping, woken, leaving, polls, copying, advancing, notifying,
  broadcasting, releasing, View, enter, wake, advance,
}

-- Places between `pthread_mutex_lock` and `pthread_mutex_unlock` in the waiting loop, without the
-- sleep, and in the notification.
abbrev pub holds_own : Pc → Bool
holds_own testing = true
holds_own failing = true
holds_own leaving = true
holds_own pc = false

abbrev pub holds_other : Pc → Bool
holds_other broadcasting = true
holds_other releasing = true
holds_other pc = false

-- Behind a test that failed, up to the end of the sleep.
abbrev pub waits : Pc → Bool
waits failing = true
waits sleeping = true
waits pc = false

-- Behind the store of an index, up to the broadcast.
abbrev pub announces : Pc → Bool
announces notifying = true
announces broadcasting = true
announces pc = false

-- Behind a test that passed, up to the store of the index.
abbrev pub commits : Pc → Bool
commits leaving = true
commits copying = true
commits advancing = true
commits pc = false

-- The places of a thread in either mode.
abbrev pub stays : Mode → Pc → Bool
stays blocking polls = false
stays blocking pc = true
stays polling idle = true
stays polling polls = true
stays polling copying = true
stays polling advancing = true
stays polling pc = false

-- One thread's half: its lock is held where one of the two says so, by one of them only; it waits
-- only while its condition lasts or the peer has yet to broadcast; it works only while it may.
pub record Half (mode : Mode) (stop : Bool) (pc peer : Pc) (own : Bool) : Type 0 where
  pub held : own ≡ holds_own pc || holds_other peer
  pub alone : holds_own pc && holds_other peer ≡ false
  pub called : not (waits pc) || stop || announces peer ≡ true
  pub passed : not (commits pc) || not stop ≡ true
  pub places : stays mode pc ≡ true

pub record Sync (mode : Mode) (stop peer_stop : Bool) (v : View) : Type 0 where
  pub here : Half mode stop v.pc v.peer v.own
  pub there : Half mode peer_stop v.peer v.pc v.other

abbrev pub flip : View → View
flip v = record { pc = v.peer; peer = v.pc; own = v.other; other = v.own }

stays_lem : (q : Pc) → stays polling q ≡ true → waits q ≡ false
stays_lem idle h = refl
stays_lem q h = ground arith

wake_lem :
    (mode : Mode) (stop : Bool) (q : Pc) (l : Bool)
    → Half mode stop q broadcasting l
    → Half mode stop (wake q) releasing l × (holds_other (wake q) ≡ holds_other q)
wake_lem mode stop sleeping l h = ground arith
wake_lem mode stop q l h = ground arith

-- An action that leaves both tests as they are.
pub advance-Sync :
    (mode : Mode) (f e : Bool) (p q : Pc) (l m : Bool) {t : View}
    → Sync mode f e (record { pc = p; peer = q; own = l; other = m })
    → advance mode f p (record { pc = p; peer = q; own = l; other = m }) ≡ some t
    → Sync mode f e t
advance-Sync mode f e broadcasting q l m {t} s h = ground (arith, wake_lem mode e q m s.there)
advance-Sync mode f e p q l m {t} s h = ground arith

-- The store of an index: behind it the peer's test passes.
pub advancing-Sync :
    (mode : Mode) (f e f' : Bool) (q : Pc) (l m : Bool) {t : View}
    → Sync mode f e (record { pc = advancing; peer = q; own = l; other = m })
    → advance mode f advancing (record { pc = advancing; peer = q; own = l; other = m }) ≡ some t
    → Sync mode f' false t
advancing-Sync blocking f e f' q l m {t} s h = ground arith
advancing-Sync polling f e f' q l m {t} s h = ground (arith, stays_lem q s.there.places)

-- A sleep that ends without a broadcast, and the start of a call.
pub woken-Sync :
    (mode : Mode) (f e : Bool) (q : Pc) (l m : Bool)
    → Sync mode f e (record { pc = sleeping; peer = q; own = l; other = m })
    → Sync mode f e (record { pc = woken; peer = q; own = l; other = m })
woken-Sync blocking f e q l m s = ground arith
woken-Sync polling f e q l m s = absurd (false≢true s.here.places)

pub enter-Sync :
    (mode : Mode) (f e : Bool) (q : Pc) (l m : Bool)
    → Sync mode f e (record { pc = idle; peer = q; own = l; other = m })
    → Sync mode f e (record { pc = enter mode; peer = q; own = l; other = m })
enter-Sync blocking f e q l m s = ground arith
enter-Sync polling f e q l m s = ground arith

pub Sync-flip : (mode : Mode) (f e : Bool) (v : View) → Sync mode f e v → Sync mode e f (flip v)
Sync-flip mode f e v s = record { here = s.there; there = s.here }
