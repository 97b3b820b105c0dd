-- ===== src/Protocol/Replies.antt =====
-- What a request to `kvs_tcp_protocol` is answered.
use kv_study.Prelude.{
  ℕ, ◌+◌, ◌≤◌, ◌<◌, ◌≡◌, refl, ◌∙◌, ap, ◌⊎◌, inl, inr, true, false, none, some, List, [], ◌∷◌, ◌++◌,
  ltb, length, length-append, take-length_le, drop-append, ℤ, pos, Ptr, Str, codes, str_eq,
  str_eq_refl, ◌==◌, if◌then◌else◌, Run, ok, fault, deadlock, Returns, ◌>>=◌, arith,
}
use kv_study.Wire.{TcpHeader, check_header, build_tcp_response}
use kv_study.Wire.Codec.{Fits, encode, length-encode, parse_tcp_header-encode}
use kv_study.Array.{kvs_array_set, kvs_array_get, kvs_array_del, kvs_array_mod, kvs_array_exist}
use kv_study.Array.Methods.{
  IsValid, view, kvs_array_set-Answer, kvs_array_get-Answer, set_code, set_view,
}
use kv_study.Engine.{TreeOps, ZsetOps}
use kv_study.Protocol.{State, kvs_tcp_protocol, answer, copy_pointer, to_result, three_way}
use kv_study.Protocol.Request.{Cmd, cmd_of, key_of, value_of}
use kv_study.Protocol.Payload.{Lacks, key_of-pair, value_of-pair, key_of-word}

-- A request that passes the header check, with the whole payload behind the header.
pub record Request : Type 0 where
  pub header : TcpHeader
  pub payload : List ℕ
  pub fits : Fits header
  pub accepted : check_header header ≡ pos 0
  pub sized : length payload ≡ header.data_len

abbrev pub request_bytes : Request → List ℕ
request_bytes r = encode r.header ++ r.payload

-- The codes that the `switch` has no case for.
abbrev pub Unhandled : ℕ → Type 0
Unhandled n =
    (n ≡ 0) ⊎ ((6 < n) × (n < 11)) ⊎ ((12 < n) × (n < 21)) ⊎ ((22 < n) × (n < 31)) ⊎ (33 < n)

cmd_of-Unhandled : (n : ℕ) → Unhandled n → cmd_of n ≡ Cmd.unknown
unfolding cmd_of
cmd_of-Unhandled n u = ground arith

array_codes :
    (n : ℕ)
    → 1 ≤ n
    → n ≤ 5
    → (cmd_of n ≡ Cmd.set)
      ⊎ (cmd_of n ≡ Cmd.get)
      ⊎ (cmd_of n ≡ Cmd.del)
      ⊎ (cmd_of n ≡ Cmd.modify)
      ⊎ (cmd_of n ≡ Cmd.exist)
unfolding cmd_of
array_codes n low high = ground arith

-- The response to a request, and its length.
abbrev pub reply : TcpHeader → Str → List ℕ × ℤ
reply h result =
    let (bytes, size) = build_tcp_response h.cmd_type h.seq_id result in (bytes, pos size)

module _ (trees : TreeOps) (zsets : ZsetOps)
    (save : State trees zsets → Run (State trees zsets × ℤ)) where
  -- The engine after a request, and its response, from what the command leaves.
  abbrev pub replied : Request → State trees zsets × Str → Run (State trees zsets × List ℕ × ℤ)
  replied r (e, result) = let (bytes, code) = reply r.header result in ok (e, bytes, code)

  pub protocol-request :
      (r : Request) (e : State trees zsets)
      → kvs_tcp_protocol trees zsets save (request_bytes r) e
        ≡ answer trees zsets save r.header r.payload e
  unfolding kvs_tcp_protocol
  protocol-request r e =
      let size = length-append (encode r.header) r.payload in
      let sized = r.sized in
      let head = length-encode r.header in
      let e1 : ltb (length (request_bytes r)) 24 ≡ false = ground (arith, size, head) in
      let e2 : ltb (length (request_bytes r)) (24 + r.header.data_len) ≡ false =
        ground (arith, size, head, sized) in
      rw (
        e1,
        parse_tcp_header-encode r.header r.payload r.fits,
        r.accepted,
        e2,
        drop-append (encode r.header) r.payload 24 head,
        take-length_le r.header.data_len r.payload (omega arith),
      )

  -- A request with a code that the dispatcher has no case for, as RDEL, RMOD, REXIST, HDEL, HMOD and
  -- HEXIST have, changes nothing in the engine and is answered "UNKNOWN COMMAND".
  pub kvs_tcp_protocol-Unhandled :
      (r : Request) (e : State trees zsets)
      → Unhandled r.header.cmd_type
      → kvs_tcp_protocol trees zsets save (request_bytes r) e
        ≡ replied r (e, codes "UNKNOWN COMMAND")
  unfolding answer
  kvs_tcp_protocol-Unhandled r e u =
      protocol-request r e ∙ rw (cmd_of-Unhandled r.header.cmd_type u)

  -- A GET without a payload is answered, and leaves the mutex of the array locked.
  empty_get_lem :
      (r : Request) (e : State trees zsets)
      → r.header.cmd_type ≡ 2
      → r.payload ≡ []
      → e.array.locked ≡ false
      → kvs_tcp_protocol trees zsets save (request_bytes r) e
        ≡ replied r (record e { array = record e.array { locked = true } }, codes "NO EXIST")
  unfolding answer kvs_array_get
  empty_get_lem r e two empty free = protocol-request r e ∙ rw (empty, free, two)

  -- A locked array keeps every array command waiting.
  array_command_lem :
      (r : Request) (e : State trees zsets)
      → 1 ≤ r.header.cmd_type
      → r.header.cmd_type ≤ 5
      → e.array.locked ≡ true
      → kvs_tcp_protocol trees zsets save (request_bytes r) e ≡ deadlock
  unfolding answer kvs_array_set kvs_array_get kvs_array_del kvs_array_mod kvs_array_exist
  array_command_lem r e low high held =
      protocol-request r e ∙ (elim (array_codes r.header.cmd_type low high) [
        | inl c ↦ rw (c, held)
        | inr (inl c) ↦ rw (c, held)
        | inr (inr (inl c)) ↦ rw (c, held)
        | inr (inr (inr (inl c))) ↦ rw (c, held)
        | inr (inr (inr (inr c))) ↦ rw (c, held)
      ])

  -- One GET without a payload stops the server: the array command after it waits for ever.
  pub empty_get-deadlock :
      (r next : Request) (e : State trees zsets)
      → r.header.cmd_type ≡ 2
      → r.payload ≡ []
      → e.array.locked ≡ false
      → 1 ≤ next.header.cmd_type
      → next.header.cmd_type ≤ 5
      → (do
        (e', response, code) ← kvs_tcp_protocol trees zsets save (request_bytes r) e
        kvs_tcp_protocol trees zsets save (request_bytes next) e')
        ≡ deadlock
  empty_get-deadlock r next e two empty free low high =
      rw (empty_get_lem r e two empty free) (array_command_lem next _ low high refl)

  -- A request that sets a key in a valid array.
  set_lem :
      (r : Request) (e : State trees zsets) (key value : Str)
      → IsValid e.array
      → r.header.cmd_type ≡ 1
      → key_of r.payload ≡ some key
      → value_of r.payload ≡ some value
      → Returns (kvs_tcp_protocol trees zsets save (request_bytes r) e) λ (e', response, code).
        (response ≡ (reply r.header (three_way (codes "EXIST") (set_code true e.array key))).0)
        × IsValid e'.array
        × ((q : Str) → view e'.array q ≡ set_view true e.array key value q)
  unfolding answer
  set_lem r e key value valid one k v =
      let (r', run, a) = kvs_array_set-Answer valid key value true true in
      (
        (
          record e { array = r'.0 },
          (reply r.header (three_way (codes "EXIST") r'.1)).0,
          (reply r.header (three_way (codes "EXIST") r'.1)).1,
        ),
        protocol-request r e ∙ rw (k, v, one, run),
        (rw a.returns refl, a.valid, a.reads),
      )

  -- A request that reads a key that the array holds.
  get_lem :
      (r : Request) (e : State trees zsets) (key value : Str)
      → IsValid e.array
      → r.header.cmd_type ≡ 2
      → key_of r.payload ≡ some key
      → view e.array key ≡ some value
      → length value < 1024
      → Returns (kvs_tcp_protocol trees zsets save (request_bytes r) e) λ (e', response, code).
        (response ≡ (reply r.header value).0)
        × IsValid e'.array
        × ((q : Str) → view e'.array q ≡ view e.array q)
  unfolding answer copy_pointer to_result
  get_lem r e key value valid two k v short =
      let (r', run, (found, a)) = kvs_array_get-Answer valid key in
      let pointer : r'.1 ≡ Ptr.text value = rw (found, v) in
      let fits : ltb (length value) 1024 ≡ true = ground arith in
      (
        (record e { array = r'.0 }, (reply r.header value).0, (reply r.header value).1),
        protocol-request r e ∙ rw (k, two, run, pointer, fits),
        (refl, a.valid, a.reads),
      )

  -- A GET of a key whose value has 1024 bytes or more, which a loaded file can give it, overruns the
  -- buffer of the result.
  pub long_value-fault :
      (r : Request) (e : State trees zsets) (b : ℕ) (key value : Str)
      → IsValid e.array
      → r.header.cmd_type ≡ 2
      → r.payload ≡ b ∷ key
      → Lacks 0 (b ∷ key)
      → Lacks b' ' (b ∷ key)
      → view e.array (b ∷ key) ≡ some value
      → 1024 ≤ length value
      → kvs_tcp_protocol trees zsets save (request_bytes r) e ≡ fault
  unfolding answer copy_pointer to_result
  long_value-fault r e b key value valid two asked clean word v long =
      let (r', run, (found, a)) = kvs_array_get-Answer valid (b ∷ key) in
      let pointer : r'.1 ≡ Ptr.text value = rw (found, v) in
      let over : ltb (length value) 1024 ≡ false = ground arith in
      let k = ap key_of asked ∙ key_of-word b key clean word in
      protocol-request r e ∙ rw (k, two, run, pointer, over)

  -- "SET key value" for a key that a valid array with room does not hold, and then "GET key": the
  -- first is answered "OK", the second with the value, and the array maps that key to the value and
  -- every other key as before.
  pub set-get :
      (r next : Request) (e : State trees zsets) (b : ℕ) (key value : Str)
      → IsValid e.array
      → r.header.cmd_type ≡ 1
      → r.payload ≡ (b ∷ key) ++ b' ' ∷ value
      → next.header.cmd_type ≡ 2
      → next.payload ≡ b ∷ key
      → Lacks 0 (b ∷ key)
      → Lacks b' ' (b ∷ key)
      → Lacks 0 value
      → length value < 1024
      → (e.array.total == 1024) ≡ false
      → view e.array (b ∷ key) ≡ none
      → Returns
          (do
            (e', response, code) ← kvs_tcp_protocol trees zsets save (request_bytes r) e
            (e'', response', code') ← kvs_tcp_protocol trees zsets save (request_bytes next) e'
            ok (e'', response, response'))
          λ (e'', response, response').
            (response ≡ (reply r.header (codes "OK")).0)
            × (response' ≡ (reply next.header value).0)
            × ((q : Str)
                → view e''.array q ≡ (if str_eq (b ∷ key) q then some value else view e.array q))
  unfolding three_way
  set-get r next e b key value valid one sent two asked clean word clean_value short room fresh =
      let k = ap key_of sent ∙ key_of-pair (b ∷ key) value clean word clean_value in
      let v = ap value_of sent ∙ value_of-pair (b ∷ key) value clean word clean_value in
      let code : set_code true e.array (b ∷ key) ≡ pos 0 = rw (room, fresh) in
      let (s', run, (answered, valid', reads)) = set_lem r e (b ∷ key) value valid one k v in
      let k' = ap key_of asked ∙ key_of-word b key clean word in
      let same : set_view true e.array (b ∷ key) value (b ∷ key) ≡ some value =
        rw (room, fresh, str_eq_refl (b ∷ key)) in
      let (s'', run', (answered', valid'', reads')) =
        get_lem next s'.0 (b ∷ key) value valid' two k' (reads (b ∷ key) ∙ same) short in
      (
        (s''.0, s'.1, s''.1),
        rw (run, run'),
        (answered ∙ rw code refl, answered', λ q. reads' q ∙ reads q ∙ rw (room, fresh) refl),
      )
