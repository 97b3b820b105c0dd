-- ===== src/Array/Calls.antt =====
-- Sequences of calls of kvs_array.c, as the protocol makes them.
use kv_study.Prelude.{
  ◌≡◌, refl, Bool, true, false, Option, none, some, List, [], ◌∷◌, pos, Str, Run, ok, deadlock,
  Returns, ◌>>=◌,
}
use kv_study.Array.{
  KvsArray, kvs_array_get, kvs_array_set, kvs_array_del, kvs_array_mod, kvs_array_exist,
}
use kv_study.Array.Methods.{
  IsValid, same_lem, kvs_array_set-Answer, kvs_array_get-Answer, kvs_array_exist-Answer,
  kvs_array_mod-Answer,
}

-- One call with its arguments; the Booleans are the outcomes of its allocations.
pub data Call : Type 0 where
  set : Bool → Bool → Option Str → Option Str → Call
  get del exist : Option Str → Call
  modify : Bool → Option Str → Option Str → Call

-- The state that a call leaves.
pub call : Call → KvsArray → Run KvsArray
call (set kcopy kvalue k v) a = do r ← kvs_array_set kcopy kvalue a k v; ok r.0
call (get k) a = do r ← kvs_array_get a k; ok r.0
call (del k) a = do r ← kvs_array_del a k; ok r.0
call (exist k) a = do r ← kvs_array_exist a k; ok r.0
call (modify kvalue k v) a = do r ← kvs_array_mod kvalue a k v; ok r.0

-- A GET, DEL or MOD whose key is NULL, or a MOD whose value is NULL.
abbrev pub HasNull : Call → Type 0
HasNull (get none) = Unit
HasNull (del none) = Unit
HasNull (modify kvalue none v) = Unit
HasNull (modify kvalue (some k) none) = Unit
HasNull _ = ⊥

-- Calls in a row.
pub calls : List Call → KvsArray → Run KvsArray
unfolding call
calls [] a = ok a
calls (c ∷ cs) a = do b ← call c a; calls cs b

held-deadlock : (a : KvsArray) (c : Call) → a.locked ≡ true → call c a ≡ deadlock
unfolding call kvs_array_set kvs_array_get kvs_array_del kvs_array_mod kvs_array_exist
held-deadlock a (set kcopy kvalue k v) h = rw h
held-deadlock a (get k) h = rw h
held-deadlock a (del k) h = rw h
held-deadlock a (exist k) h = rw h
held-deadlock a (modify kvalue k v) h = rw h

null-held :
    (a : KvsArray) (c : Call)
    → a.locked ≡ false
    → HasNull c
    → call c a ≡ ok (record a { locked = true })
unfolding call kvs_array_get kvs_array_del kvs_array_mod
null-held a (get none) h n = rw h
null-held a (del none) h n = rw h
null-held a (modify kvalue none v) h n = rw h
null-held a (modify kvalue (some k) none) h n = rw h
null-held a (set kcopy kvalue k v) h n = absurd n
null-held a (exist k) h n = absurd n
null-held a (get (some k)) h n = absurd n
null-held a (del (some k)) h n = absurd n
null-held a (modify kvalue (some k) (some v)) h n = absurd n

-- After a GET, DEL or MOD with a NULL argument the mutex stays locked, and whatever call comes
-- next waits for ever.
pub null_call-deadlock :
    (a : KvsArray) (c d : Call) (rest : List Call)
    → a.locked ≡ false
    → HasNull c
    → calls (c ∷ d ∷ rest) a ≡ deadlock
unfolding calls
null_call-deadlock a c d rest h n =
    rw (null-held a c h n, held-deadlock (record a { locked = true }) d refl)

-- Calls that cannot leave a hole, a wild value or a locked mutex.
abbrev pub IsSafe : Call → Type 0
IsSafe (set kcopy kvalue k v) = Unit
IsSafe (get (some k)) = Unit
IsSafe (exist k) = Unit
IsSafe (modify true (some k) (some v)) = Unit
IsSafe _ = ⊥

abbrev pub AllSafe : List Call → Type 0
AllSafe [] = Unit
AllSafe (c ∷ cs) = IsSafe c × AllSafe cs

call-IsValid : {a : KvsArray} (c : Call) → IsValid a → IsSafe c → Returns (call c a) IsValid
unfolding call
call-IsValid (set kcopy kvalue (some k) (some v)) valid s =
    let (r, run, answer) = kvs_array_set-Answer valid k v kcopy kvalue in
    (r.0, rw run, answer.valid)
call-IsValid {a} (set kcopy kvalue none v) valid s = (
  record a { locked = false },
  unfold kvs_array_set in rw valid.unlocked,
  (same_lem valid _ (λ q. refl) (pos 0) _ refl).valid,
)
call-IsValid {a} (set kcopy kvalue (some k) none) valid s = (
  record a { locked = false },
  unfold kvs_array_set in rw valid.unlocked,
  (same_lem valid _ (λ q. refl) (pos 0) _ refl).valid,
)
call-IsValid (get (some k)) valid s =
    let (r, run, (p, answer)) = kvs_array_get-Answer valid k in (r.0, rw run, answer.valid)
call-IsValid (exist (some k)) valid s =
    let (r, run, answer) = kvs_array_exist-Answer valid k in (r.0, rw run, answer.valid)
call-IsValid {a} (exist none) valid s = (
  record a { locked = false },
  unfold kvs_array_exist in rw valid.unlocked,
  (same_lem valid _ (λ q. refl) (pos 0) _ refl).valid,
)
call-IsValid (modify true (some k) (some v)) valid s =
    let (r, run, answer) = kvs_array_mod-Answer valid k v in (r.0, rw run, answer.valid)
call-IsValid (get none) valid s = absurd s
call-IsValid (del k) valid s = absurd s
call-IsValid (modify true none v) valid s = absurd s
call-IsValid (modify true (some k) none) valid s = absurd s
call-IsValid (modify false k v) valid s = absurd s

-- From a valid table, any sequence of calls of SET and EXIST with any arguments and outcomes, GET
-- with a key, and MOD with a key, a value and its copy granted, runs to the end without undefined
-- behaviour or deadlock and leaves the table valid. A GET or MOD with NULL, a MOD whose copy fails,
-- and DEL are not among the calls.
pub calls-IsValid :
    (cs : List Call) {a : KvsArray} → IsValid a → AllSafe cs → Returns (calls cs a) IsValid
unfolding calls
calls-IsValid [] {a} valid s = (a, refl, valid)
calls-IsValid (c ∷ cs) valid s =
    let (b, run, kept) = call-IsValid c valid s.0 in
    let (r, rest, done) = calls-IsValid cs kept s.1 in (r, rw run rest, done)
