-- ===== src/Hash/Calls.antt =====
-- Sequences of calls of kvs_hash.c against a map. A call carries what its allocations come to.
use kv_study.Prelude.{
  ◌≡◌, ◌≢◌, refl, sym, ◌∙◌, Bool, ap₂, true, Option, none, some, if◌then◌else◌, List, [], ◌∷◌, ℤ,
  pos, negsuc, Ptr, Str, str_eq, Run, ok, Returns, ◌>>=◌, arith,
}
use kv_study.Hash.{KvsHash, kvs_hash_set, kvs_hash_get, kvs_hash_mod, kvs_hash_del, kvs_hash_exist}
use kv_study.Hash.Index.{IsAscii, hash_index_ascii}
use kv_study.Hash.Buckets.{IsValid, view}
use kv_study.Hash.Methods.{kvs_hash_set-granted, kvs_hash_get-view, kvs_hash_mod-Answer}
use kv_study.Hash.Delete.{kvs_hash_del-Answer, kvs_hash_exist-view}

pub data Call : Type 0 where
  set : (node kcopy kvalue : Bool) → Str → Str → Call
  modify : (kvalue : Bool) → Str → Str → Call
  get del exist : Str → Call

pub data Reply : Type 0 where
  code : ℤ → Reply
  pointer : Ptr → Reply

abbrev with_code : KvsHash × ℤ → Run (KvsHash × Reply)
with_code (h, r) = ok (h, code r)

unfoldable pub call : Call → KvsHash → Run (KvsHash × Reply)
call (set node kcopy kvalue k v) h =
    kvs_hash_set node kcopy kvalue h (some k) (some v) >>= with_code
call (modify kvalue k v) h = kvs_hash_mod kvalue h (some k) (some v) >>= with_code
call (del k) h = kvs_hash_del h (some k) >>= with_code
call (get k) h = do p ← kvs_hash_get h (some k); ok (h, pointer p)
call (exist k) h = do r ← kvs_hash_exist h (some k); ok (h, code r)

pub calls : List Call → KvsHash → Run (KvsHash × List Reply)
calls [] h = ok (h, [])
calls (c ∷ cs) h = do (h', r) ← call c h; (last, rs) ← calls cs h'; ok (last, r ∷ rs)

-- What the component promises: a map from keys to pointers.
abbrev pub Map : Type 0
Map = Str → Option Ptr

abbrev pub update : Map → Str → Option Ptr → Map
update f k p q = if str_eq k q then p else f q

abbrev pub spec_map : Call → Map → Map
spec_map (set node kcopy kvalue k v) f = elim (f k) [
  | some old ↦ f
  | none ↦ update f k (some (Ptr.text v))
]
spec_map (modify kvalue k v) f = elim (f k) [ some old ↦ update f k (some (Ptr.text v)) | none ↦ f ]
spec_map (del k) f = update f k none
spec_map (get k) f = f
spec_map (exist k) f = f

abbrev pub spec_reply : Call → Map → Reply
spec_reply (set node kcopy kvalue k v) f = code (elim (f k) [ some old ↦ pos 1 | none ↦ pos 0 ])
spec_reply (modify kvalue k v) f = code (elim (f k) [ some old ↦ pos 0 | none ↦ pos 1 ])
spec_reply (del k) f = code (elim (f k) [ some old ↦ pos 0 | none ↦ negsuc 0 ])
spec_reply (get k) f = pointer (elim (f k) [ some p ↦ p | none ↦ Ptr.null ])
spec_reply (exist k) f = code (elim (f k) [ some p ↦ pos 0 | none ↦ pos 1 ])

abbrev pub spec_maps : List Call → Map → Map
spec_maps [] f = f
spec_maps (c ∷ cs) f = spec_maps cs (spec_map c f)

abbrev pub spec_replies : List Call → Map → List Reply
spec_replies [] f = []
spec_replies (c ∷ cs) f = spec_reply c f ∷ spec_replies cs (spec_map c f)

-- The table stands for the map, which holds neither NULL nor a freed pointer.
pub record Refines (h : KvsHash) (f : Map) : Type 0 where
  pub valid : IsValid h
  pub reads : (q : Str) → view h q ≡ f q
  pub solid : (q : Str) → f q ≢ some Ptr.null
  pub sound : (q : Str) → f q ≢ some Ptr.wild

abbrev pub key_of : Call → Str
key_of (set node kcopy kvalue k v) = k
key_of (modify kvalue k v) = k
key_of (get k) = k
key_of (del k) = k
key_of (exist k) = k

abbrev pub AsciiKeys : List Call → Type 0
AsciiKeys [] = Unit
AsciiKeys (c ∷ cs) = IsAscii (key_of c) × AsciiKeys cs

-- Every allocation of the call succeeds.
abbrev pub IsGranted : Call → Type 0
IsGranted (set node kcopy kvalue k v) = (node ≡ true) × (kcopy ≡ true) × (kvalue ≡ true)
IsGranted (modify kvalue k v) = kvalue ≡ true
IsGranted (get k) = Unit
IsGranted (del k) = Unit
IsGranted (exist k) = Unit

abbrev pub AllGranted : List Call → Type 0
AllGranted [] = Unit
AllGranted (c ∷ cs) = IsGranted c × AllGranted cs

-- One call.
abbrev Step : Call → Map → KvsHash × Reply → Type 0
Step c f r = Refines r.0 (spec_map c f) × (r.1 ≡ spec_reply c f)

call-Step :
    (c : Call) (h : KvsHash) (f : Map)
    → Refines h f
    → IsAscii (key_of c)
    → IsGranted c
    → Returns (call c h) (Step c f)
unfolding call
call-Step (set node kcopy kvalue k v) h f m ascii granted =
    let (i, home, lt) = hash_index_ascii k ascii in
    let (r, run, a) = kvs_hash_set-granted m.valid k i home lt v in
    (
      (r.0, code r.1),
      rw (granted.0, granted.1, granted.2, run, ◌>>=◌),
      (
        record {
          valid = a.valid;
          reads = λ q. ground (arith, a.reads q, m.reads q, m.reads k);
          solid = λ q. ground (arith, m.solid q);
          sound = λ q. ground (arith, m.sound q);
        },
        ground (arith, a.returns, m.reads k),
      ),
    )
call-Step (modify kvalue k v) h f m ascii granted =
    let (i, home, lt) = hash_index_ascii k ascii in
    let (r, run, a) =
      kvs_hash_mod-Answer m.valid k i home lt v true (λ wild. m.sound k (sym (m.reads k) ∙ wild)) in
    (
      (r.0, code r.1),
      rw (granted, run, ◌>>=◌),
      (
        record {
          valid = a.valid;
          reads = λ q. ground (arith, a.reads q, m.reads q, m.reads k);
          solid = λ q. ground (arith, m.solid q);
          sound = λ q. ground (arith, m.sound q);
        },
        ground (arith, a.returns, m.reads k),
      ),
    )
call-Step (del k) h f m ascii granted =
    let (i, home, lt) = hash_index_ascii k ascii in
    let (r, run, a) =
      kvs_hash_del-Answer m.valid k i home lt (λ wild. m.sound k (sym (m.reads k) ∙ wild)) in
    (
      (r.0, code r.1),
      rw (run, ◌>>=◌),
      (
        record {
          valid = a.valid;
          reads = λ q. ground (arith, a.reads q, m.reads q);
          solid = λ q. ground (arith, m.solid q);
          sound = λ q. ground (arith, m.sound q);
        },
        ground (arith, a.returns, m.reads k),
      ),
    )
call-Step (get k) h f m ascii granted =
    let (i, home, lt) = hash_index_ascii k ascii in
    (
      (h, pointer (elim (view h k) [ none ↦ Ptr.null | some p ↦ p ])),
      rw (kvs_hash_get-view m.valid k i home lt, ◌>>=◌),
      (m, ground (arith, m.reads k)),
    )
call-Step (exist k) h f m ascii granted =
    let (i, home, lt) = hash_index_ascii k ascii in
    (
      (h, code (elim (view h k) [ none ↦ pos 1 | some p ↦ pos 0 ])),
      rw (
        kvs_hash_exist-view m.valid k i home lt (λ q. ground (arith, m.solid q, m.reads q)),
        ◌>>=◌,
      ),
      (m, ground (arith, m.reads k)),
    )

-- From a valid table that stands for a map without NULL or freed pointers, any sequence of calls with
-- ASCII keys in which every allocation succeeds runs without undefined behaviour, gives the replies
-- of the map, and ends in such a table for the map's last state.
pub calls-Refines :
    (cs : List Call) (h : KvsHash) (f : Map)
    → Refines h f
    → AsciiKeys cs
    → AllGranted cs
    → Returns (calls cs h) λ r. Refines r.0 (spec_maps cs f) × (r.1 ≡ spec_replies cs f)
unfolding calls
calls-Refines [] h f m ascii granted = ((h, []), refl, (m, refl))
calls-Refines (c ∷ cs) h f m ascii granted =
    let (r, run, (step, reply)) = call-Step c h f m ascii.0 granted.0 in
    let (last, rest, (m', replies)) = calls-Refines cs r.0 (spec_map c f) step ascii.1 granted.1 in
    ((last.0, r.1 ∷ last.1), rw (run, ◌>>=◌, rest), (m', ap₂ ◌∷◌ reply replies))
