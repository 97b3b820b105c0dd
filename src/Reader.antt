-- ===== src/Reader.antt =====
-- `server_reader` of ntyco.c: the bytes of one connection, cut into requests. The state of the loop is
-- the buffer's content; a reading is what `recv` gave, at most the room that is left in the buffer. The
-- handler is `kvs_tcp_protocol` on one frame. A run hands out the buffers sent, in order.
pub mod Framing
use kv_study.Prelude.{
  ℕ, zero, suc, ◌+◌, ◌-◌, Bool, true, false, Option, none, some, List, [], ◌∷◌, ◌++◌, ltb,
  if◌then◌else◌, length, take, drop, ℤ, pos, negsuc, is_neg, Run, ok, fault, ◌>>=◌,
}
use kv_study.Wire.{TcpHeader, tcp_header_size, parse_tcp_header, write_header}

abbrev pub buffer_size : ℕ
buffer_size = 4096

-- What one pass of the inner loop leaves: the bytes not consumed, and whether the connection was
-- closed because a header was refused.
pub record Drained (S : Type 0) : Type 0 where
  pub state : S
  pub buffer : List ℕ
  pub sent : List (List ℕ)
  pub closed : Bool

-- The second header, put in front of the response: its length field is that of the response.
unfoldable pub wrap_response : TcpHeader → List ℕ → List ℕ
wrap_response h response =
    write_header h.magic h.version h.cmd_type (length response) h.seq_id h.flags ++ response

-- `if (resp_len > 0)`
unfoldable pub send_buffer : TcpHeader → List ℕ → ℤ → List (List ℕ)
unfolding wrap_response
send_buffer h response (negsuc n) = []
send_buffer h response (pos zero) = []
send_buffer h response (pos (suc n)) = wrap_response h response ∷ []

-- `data[header.data_len] = '\0'` in `kvs_tcp_protocol`, which works in this buffer: the byte behind a
-- payload, the first of what follows, becomes 0. At the end of the content it is not seen.
unfoldable pub end_payload : ℕ → List ℕ → List ℕ
end_payload zero behind = behind
end_payload (suc n) [] = []
end_payload (suc n) (b ∷ behind) = 0 ∷ behind

module _ {S : Type 0} (handler : List ℕ → S → Run (S × List ℕ × ℤ)) where
  -- `while (buffer_len >= TCP_HEADER_SIZE)`: every round removes a header at least, so the length of
  -- the buffer is fuel enough.
  unfoldable pub drain : ℕ → List ℕ → S → Run (Drained S)
  unfolding send_buffer end_payload
  drain zero buffer s = ok (record { state = s; buffer = buffer; sent = []; closed = false })
  drain (suc fuel) buffer s =
      let idle : Run (Drained S) =
        ok (record { state = s; buffer = buffer; sent = []; closed = false }) in
      let round : Run (Drained S) = (do
        (h, ret) ← parse_tcp_header buffer
        let total = tcp_header_size + h.data_len
        let stopped : Run (Drained S) =
            ok (record { state = s; buffer = buffer; sent = []; closed = true })
        let frame : Run (Drained S) = (do
          (s', response, size) ← handler (take total buffer) s
          rest ← drain fuel (end_payload h.data_len (drop total buffer)) s'
          ok (record rest { sent = send_buffer h response size ++ rest.sent }))
        if is_neg ret then stopped else if ltb (length buffer) total then idle else frame) in
      if ltb (length buffer) tcp_header_size then idle else round

  -- The outer loop over the readings; it ends at an empty reading, at a refused header, or where the
  -- readings given end.
  unfoldable pub server_reader : List (List ℕ) → List ℕ → S → Run (Drained S)
  unfolding drain
  server_reader [] buffer s = ok (record { state = s; buffer = buffer; sent = []; closed = false })
  server_reader (chunk ∷ chunks) buffer s =
      let next : Run (Drained S) = (do
        d ← drain (suc (length (buffer ++ chunk))) (buffer ++ chunk) s
        let rest : Run (Drained S) = (do
          r ← server_reader chunks d.buffer d.state
          ok (record r { sent = d.sent ++ r.sent }))
        if d.closed then ok d else rest) in
      elim chunk [
        | [] ↦ ok (record { state = s; buffer = buffer; sent = []; closed = true })
        | byte ∷ bytes ↦ next
      ]
