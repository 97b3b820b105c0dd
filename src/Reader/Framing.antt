-- ===== src/Reader/Framing.antt =====
-- `server_reader` of ntyco.c finds the frames in the bytes of a connection.
use kv_study.Prelude.{
  ℕ, zero, suc, ◌+◌, ◌<◌, ◌≤◌, ◌≡◌, refl, ◌∙◌, ap, ◌⊎◌, inl, inr, true, false, List, [], ◌∷◌, ◌++◌,
  ltb, Bool-cases, length, drop, ◌==◌, ◌*◌, ◌/◌, ◌%◌, ◌^◌, take-append, drop-append, length-append,
  ℤ, pos, negsuc, Run, ok, fault, deadlock, ◌>>=◌, arith,
}
use mathlib.Core.List.{append_assoc}
use kv_study.Wire.{
  TcpHeader, tcp_header_size, parse_tcp_header, check_header, read_words, get_u32, put_u32,
  write_header, tcp_magic,
}
use kv_study.Wire.Codec.{Fits, encode, length-encode, parse_tcp_header-encode}
use kv_study.Reader.{Drained, drain, end_payload, send_buffer}

-- A request that the header check accepts.
pub record Frame : Type 0 where
  pub header : TcpHeader
  pub payload : List ℕ
  pub fits : Fits header
  pub accepted : check_header header ≡ pos 0
  pub sized : length payload ≡ header.data_len

abbrev pub frame_bytes : Frame → List ℕ
frame_bytes f = encode f.header ++ f.payload

abbrev pub all_bytes : List Frame → List ℕ → List ℕ
all_bytes [] rest = rest
all_bytes (f ∷ fs) rest = frame_bytes f ++ all_bytes fs rest

-- Behind a request that has a payload nothing else is in the buffer.
abbrev pub Alone : List Frame → List ℕ → Type 0
Alone [] rest = Unit
Alone (f ∷ fs) rest = ((f.header.data_len ≡ 0) ⊎ (all_bytes fs rest ≡ [])) × Alone fs rest

-- The bytes do not make a whole frame yet.
abbrev pub Waits : List ℕ → Type 0
Waits rest =
    (length rest < tcp_header_size)
    ⊎ ((h : TcpHeader) × (parse_tcp_header rest ≡ ok (h, pos 0))
        × (length rest < tcp_header_size + h.data_len))

module _ {S : Type 0} (handler : List ℕ → S → Run (S × List ℕ × ℤ)) where
  -- The requests one after the other, with what is sent.
  pub serve : List Frame → S → Run (S × List (List ℕ))
  serve [] s = ok (s, [])
  serve (f ∷ fs) s = do
    (s', response, size) ← handler (frame_bytes f) s
    (last, sent) ← serve fs s'
    ok (last, send_buffer f.header response size ++ sent)

  abbrev pub idle : List ℕ → S × List (List ℕ) → Run (Drained S)
  idle rest (s, sent) = ok (record { state = s; buffer = rest; sent = sent; closed = false })

  drain-Waits :
      (fuel : ℕ) (rest : List ℕ) (s : S)
      → Waits rest
      → drain handler fuel rest s ≡ idle rest (s, [])
  unfolding drain
  drain-Waits zero rest s w = refl
  drain-Waits (suc fuel) rest s (inl short) =
      let e : ltb (length rest) 24 ≡ true = ground arith in rw e
  drain-Waits (suc fuel) rest s (inr (h, parsed, short)) =
      elim (Bool-cases (ltb (length rest) 24)) [
        | inl e ↦ rw e
        | inr e ↦
            let e' : ltb (length rest) (24 + h.data_len) ≡ true = ground arith in
            rw (e, parsed, ◌>>=◌, e')
      ]

  -- A whole frame at the front is handed to the handler, and the rest is drained.
  -- The rounds after a frame.
  abbrev after_frame : Frame → ℕ → List ℕ → S × List ℕ × ℤ → Run (Drained S)
  after_frame f fuel bytes (s, response, size) = do
    d ← drain handler fuel bytes s
    ok (record d { sent = send_buffer f.header response size ++ d.sent })

  drain-frame :
      (fuel : ℕ) (f : Frame) (more : List ℕ) (s : S)
      → drain handler (suc fuel) (frame_bytes f ++ more) s ≡ (do
        (s', response, size) ← handler (frame_bytes f) s
        rest ← drain handler fuel (end_payload f.header.data_len more) s'
        ok (record rest { sent = send_buffer f.header response size ++ rest.sent }))
  unfolding drain
  drain-frame fuel f more s =
      let total = tcp_header_size + f.header.data_len in
      let long : length (frame_bytes f) ≡ total =
        length-append (encode f.header) f.payload
        ∙ (let e = f.sized in let e' = length-encode f.header in omega arith) in
      let all : length (frame_bytes f ++ more) ≡ total + length more =
        length-append (frame_bytes f) more ∙ (omega arith) in
      let e : ltb (length (frame_bytes f ++ more)) 24 ≡ false = ground (arith, all) in
      let e' : ltb (length (frame_bytes f ++ more)) total ≡ false = ground (arith, all) in
      let parsed : parse_tcp_header (frame_bytes f ++ more) ≡ ok (f.header, pos 0) =
        ap parse_tcp_header (append_assoc (encode f.header) f.payload more)
        ∙ parse_tcp_header-encode f.header (f.payload ++ more) f.fits
        ∙ ap (λ r. ok (f.header, r)) f.accepted in
      rw (
        e,
        parsed,
        ◌>>=◌,
        e',
        take-append (frame_bytes f) more total long,
        drop-append (frame_bytes f) more total long,
      )

  end_payload-Alone :
      (f : Frame) (more : List ℕ)
      → (f.header.data_len ≡ 0) ⊎ (more ≡ [])
      → end_payload f.header.data_len more ≡ more
  unfolding end_payload
  end_payload-Alone f more (inl none_sent) = rw none_sent
  end_payload-Alone f more (inr last) = rw last (nothing f.header.data_len)
    where
      nothing : (n : ℕ) → end_payload n [] ≡ []
      nothing zero = refl
      nothing (suc n) = refl

  -- What follows a request is served alike, whatever the handler did.
  handled :
      (f : Frame) (rest : List ℕ) (drained : S → Run (Drained S))
      (served : S → Run (S × List (List ℕ)))
      → ((t : S) → drained t ≡ served t >>= idle rest)
      → (r : Run (S × List ℕ × ℤ))
      → (do
        (s', response, size) ← r
        d ← drained s'
        ok (record d { sent = send_buffer f.header response size ++ d.sent }))
        ≡ (do
          (s', response, size) ← r
          (last, sent) ← served s'
          ok (last, send_buffer f.header response size ++ sent))
          >>= idle rest
  handled f rest drained served ih fault = refl
  handled f rest drained served ih deadlock = refl
  handled f rest drained served ih (ok (s', response, size)) = rw (ih s') (later (served s'))
    where
      later :
          (r : Run (S × List (List ℕ)))
          → (do
            d ← r >>= idle rest
            ok (record d { sent = send_buffer f.header response size ++ d.sent }))
            ≡ (do (last, sent) ← r; ok (last, send_buffer f.header response size ++ sent))
              >>= idle rest
      later fault = refl
      later deadlock = refl
      later (ok r) = refl

  -- If no request with a payload has other bytes behind it in the buffer, the loop hands exactly the
  -- whole frames to the handler, in order, and keeps the incomplete rest for the next reading.
  pub drain-frames :
      (frames : List Frame) (rest : List ℕ) (fuel : ℕ) (s : S)
      → Waits rest
      → Alone frames rest
      → length frames < fuel
      → drain handler fuel (all_bytes frames rest) s ≡ (serve frames s >>= idle rest)
  unfolding serve
  drain-frames [] rest fuel s w alone lt = drain-Waits fuel rest s w
  drain-frames (f ∷ fs) rest zero s w alone lt = absurd (omega arith)
  drain-frames (f ∷ fs) rest (suc fuel) s w alone lt =
      let ih = λ (t : S). drain-frames fs rest fuel t w alone.1 (omega arith) in
      let drained =
        handled f rest (drain handler fuel (all_bytes fs rest)) (serve fs) ih
          (handler (frame_bytes f) s) in
      let kept = end_payload-Alone f (all_bytes fs rest) alone.0 in
      drain-frame fuel f (all_bytes fs rest) s
      ∙ ap (λ bytes. handler (frame_bytes f) s >>= after_frame f fuel bytes) kept
      ∙ drained

  drain-refused :
      (fuel : ℕ) (buffer : List ℕ) (s : S) (h : TcpHeader) (n : ℕ)
      → 24 ≤ length buffer
      → parse_tcp_header buffer ≡ ok (h, negsuc n)
      → drain handler (suc fuel) buffer s
        ≡ ok (record { state = s; buffer = buffer; sent = []; closed = true })
  unfolding drain
  drain-refused fuel buffer s h n long parsed =
      let e : ltb (length buffer) 24 ≡ false = ground arith in rw (e, parsed, ◌>>=◌)

  -- A frame of which the first byte was set to 0.
  abbrev pub spoiled : Frame → List ℕ → List ℕ
  spoiled g rest = 0 ∷ drop 1 (frame_bytes g ++ rest)

  read_spoiled :
      (g : Frame) (rest : List ℕ)
      → (h : TcpHeader) × (read_words (spoiled g rest) ≡ ok h) × (h.magic < 2 ^ 24)
  unfolding read_words get_u32 write_header put_u32
  read_spoiled g rest =
      let m = g.header.magic in
      let low : 0 * 2 ^ 24 + m / 2 ^ 16 % 256 * 2 ^ 16 + m / 2 ^ 8 % 256 * 2 ^ 8 + m % 256
          < 2 ^ 24 =
        omega arith in
      (_, refl, low)

  spoiled-refused :
      (g : Frame) (rest : List ℕ)
      → (h : TcpHeader) × (parse_tcp_header (spoiled g rest) ≡ ok (h, negsuc 1))
  unfolding parse_tcp_header check_header
  spoiled-refused g rest =
      let (h, read, low) = read_spoiled g rest in
      let differs : (h.magic == tcp_magic) ≡ false = ground arith in (h, rw (read, differs, ◌>>=◌))

  set_first : (n b : ℕ) (bytes : List ℕ) → 0 < n → end_payload n (b ∷ bytes) ≡ 0 ∷ bytes
  unfolding end_payload
  set_first zero b bytes lt = absurd (omega arith)
  set_first (suc n) b bytes lt = refl

  -- What is left when the connection is closed behind the first response.
  abbrev pub stopped_at : Frame → Frame → List ℕ → S × List ℕ × ℤ → Run (Drained S)
  stopped_at f g rest (s, response, size) = ok (record {
    state = s;
    buffer = spoiled g rest;
    sent = send_buffer f.header response size ++ [];
    closed = true;
  })

  stopped :
      (f g : Frame) (rest : List ℕ) (drained : S → Run (Drained S))
      → ((t : S)
          → drained t
            ≡ ok (record { state = t; buffer = spoiled g rest; sent = []; closed = true }))
      → (r : Run (S × List ℕ × ℤ))
      → (do
        (s', response, size) ← r
        d ← drained s'
        ok (record d { sent = send_buffer f.header response size ++ d.sent }))
        ≡ (r >>= stopped_at f g rest)
  stopped f g rest drained stop fault = refl
  stopped f g rest drained stop deadlock = refl
  stopped f g rest drained stop (ok (s, response, size)) = rw (stop s)

  -- Two requests in one reading, the first with a payload: the NUL put behind the payload destroys the
  -- magic number of the second, which is refused, and the connection is closed with it unserved.
  pub pipelined-refused :
      (f g : Frame) (rest : List ℕ) (fuel : ℕ) (s : S)
      → 0 < f.header.data_len
      → drain handler (suc (suc fuel)) (all_bytes (f ∷ g ∷ []) rest) s
        ≡ (handler (frame_bytes f) s >>= stopped_at f g rest)
  unfolding end_payload write_header put_u32
  pipelined-refused f g rest fuel s some_payload =
      let (h, parsed) = spoiled-refused g rest in
      let stop = λ (t : S). drain-refused fuel (spoiled g rest) t h 1 (omega arith) parsed in
      let spoil : end_payload f.header.data_len (frame_bytes g ++ rest) ≡ spoiled g rest =
        set_first f.header.data_len _ _ some_payload in
      drain-frame (suc fuel) f (frame_bytes g ++ rest) s
      ∙ stopped f g rest
          (drain handler (suc fuel) (end_payload f.header.data_len (frame_bytes g ++ rest)))
          (λ t. ap (λ bytes. drain handler (suc fuel) bytes t) spoil ∙ stop t)
          (handler (frame_bytes f) s)
