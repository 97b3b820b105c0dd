-- ===== src/Wire/Codec.antt =====
-- Encoding and decoding of the TCP header of kvstore.c.
use kv_study.Prelude.{
  ℕ, zero, suc, length-drop, ◌+◌, ◌*◌, ◌/◌, ◌%◌, ◌^◌, ◌≤◌, ◌<◌, ◌≡◌, refl, ap, ◌∙◌, List, [], ◌∷◌,
  ◌++◌, length, take, drop, pos, Str, ok, Returns, ◌>>=◌, arith,
}
use kv_study.Wire.{
  TcpHeader, tcp_magic, tcp_version, tcp_header_size, put_u32, get_u32, read_words, check_header,
  parse_tcp_header, write_header, build_tcp_response,
}

-- A byte buffer.
abbrev pub AllBytes : List ℕ → Type 0
AllBytes [] = Unit
AllBytes (b ∷ bs) = (b < 256) × AllBytes bs

-- Every word of the header fits 32 bits.
pub record Fits (h : TcpHeader) : Type 0 where
  pub magic : h.magic < 2 ^ 32
  pub version : h.version < 2 ^ 32
  pub cmd_type : h.cmd_type < 2 ^ 32
  pub data_len : h.data_len < 2 ^ 32
  pub seq_id : h.seq_id < 2 ^ 32
  pub flags : h.flags < 2 ^ 32

abbrev pub encode : TcpHeader → List ℕ
encode h = write_header h.magic h.version h.cmd_type h.data_len h.seq_id h.flags

get_u32-put_u32 : (x : ℕ) (rest : List ℕ) → x < 2 ^ 32 → get_u32 (put_u32 x ++ rest) ≡ ok x
unfolding get_u32 put_u32
get_u32-put_u32 x rest lt = ap ok (omega arith)

pub length-encode : (h : TcpHeader) → length (encode h) ≡ tcp_header_size
unfolding write_header
length-encode h = refl

-- What `write_header` writes, `read_words` reads back, whatever bytes follow.
pub read_words-encode :
    (h : TcpHeader) (rest : List ℕ) → Fits h → read_words (encode h ++ rest) ≡ ok h
unfolding read_words write_header
read_words-encode h rest fits = ap ok λ i. record {
  magic = get_word h.magic fits.magic i;
  version = get_word h.version fits.version i;
  cmd_type = get_word h.cmd_type fits.cmd_type i;
  data_len = get_word h.data_len fits.data_len i;
  seq_id = get_word h.seq_id fits.seq_id i;
  flags = get_word h.flags fits.flags i;
}
  where
    get_word :
        (x : ℕ)
        → x < 2 ^ 32
        → x / 2 ^ 24 % 256 * 2 ^ 24 + x / 2 ^ 16 % 256 * 2 ^ 16 + x / 2 ^ 8 % 256 * 2 ^ 8 + x % 256
          ≡ x
    get_word x lt = omega arith

-- A header survives the wire, and is accepted or refused by its own values.
pub parse_tcp_header-encode :
    (h : TcpHeader) (rest : List ℕ)
    → Fits h
    → parse_tcp_header (encode h ++ rest) ≡ ok (h, check_header h)
unfolding parse_tcp_header
parse_tcp_header-encode h rest fits = rw (read_words-encode h rest fits, ◌>>=◌)

get_u32_lem :
    (bs : List ℕ)
    → 4 ≤ length bs
    → AllBytes bs
    → Returns (get_u32 bs) λ x. (x < 2 ^ 32) × (put_u32 x ≡ take 4 bs)
unfolding get_u32 put_u32
get_u32_lem [] le bytes = absurd (omega arith)
get_u32_lem (a ∷ []) le bytes = absurd (omega arith)
get_u32_lem (a ∷ b ∷ []) le bytes = absurd (omega arith)
get_u32_lem (a ∷ b ∷ c ∷ []) le bytes = absurd (omega arith)
get_u32_lem (a ∷ b ∷ c ∷ d ∷ rest) le (ha, (hb, (hc, (hd, bytes)))) =
    let x = a * 2 ^ 24 + b * 2 ^ 16 + c * 2 ^ 8 + d in
    let ea : x / 2 ^ 24 % 256 ≡ a = omega arith in
    let eb : x / 2 ^ 16 % 256 ≡ b = omega arith in
    let ec : x / 2 ^ 8 % 256 ≡ c = omega arith in
    let ed : x % 256 ≡ d = omega arith in
    (x, refl, (omega arith, λ i. ea i ∷ eb i ∷ ec i ∷ ed i ∷ []))

drop-AllBytes : (n : ℕ) (bs : List ℕ) → AllBytes bs → AllBytes (drop n bs)
drop-AllBytes zero bs bytes = bytes
drop-AllBytes (suc n) [] bytes = tt
drop-AllBytes (suc n) (b ∷ bs) bytes = drop-AllBytes n bs bytes.1

drop_empty : (m : ℕ) → drop {A = ℕ} m [] ≡ []
drop_empty zero = refl
drop_empty (suc m) = refl

take-split : (m n l : ℕ) (bs : List ℕ) → m + n ≡ l → take m bs ++ take n (drop m bs) ≡ take l bs
take-split zero n l bs e = let same : n ≡ l = omega arith in rw same
take-split (suc m) zero zero [] e = refl
take-split (suc m) zero (suc l) [] e = refl
take-split (suc m) (suc n) zero [] e = refl
take-split (suc m) (suc n) (suc l) [] e = refl
take-split (suc m) n zero (b ∷ bs) e = absurd (omega arith)
take-split (suc m) n (suc l) (b ∷ bs) e = ap (λ t. b ∷ t) (take-split m n l bs (omega arith))

-- Two neighbouring slices are one.
slices :
    (j m n k l : ℕ) (bs : List ℕ)
    → j + m ≡ k
    → m + n ≡ l
    → take m (drop j bs) ++ take n (drop k bs) ≡ take l (drop j bs)
slices zero m n k l bs e f = let same : k ≡ m = omega arith in rw same (take-split m n l bs f)
slices (suc j) m n zero l bs e f = absurd (omega arith)
slices (suc j) m n (suc k) l [] e f =
    let none_left = take-split m n l [] f in rw (← none_left) (rw drop-nil)
  where
    drop-nil : drop {A = ℕ} m [] ≡ []
    drop-nil = drop_empty m
slices (suc j) m n (suc k) l (b ∷ bs) e f = slices j m n k l bs (omega arith) f

six :
    {a b c d e f a' b' c' d' e' f' : List ℕ}
    → a ≡ a'
    → b ≡ b'
    → c ≡ c'
    → d ≡ d'
    → e ≡ e'
    → f ≡ f'
    → a ++ (b ++ (c ++ (d ++ (e ++ f)))) ≡ a' ++ (b' ++ (c' ++ (d' ++ (e' ++ f'))))
six p q r s t u = λ i. p i ++ (q i ++ (r i ++ (s i ++ (t i ++ u i))))

six_slices :
    (bs : List ℕ)
    → take 4 bs
        ++ (take 4 (drop 4 bs)
            ++ (take 4 (drop 8 bs)
                ++ (take 4 (drop 12 bs) ++ (take 4 (drop 16 bs) ++ take 4 (drop 20 bs)))))
      ≡ take 24 bs
six_slices bs =
    let e₅ = slices 16 4 4 20 8 bs (omega arith) (omega arith) in
    let e₄ = slices 12 4 8 16 12 bs (omega arith) (omega arith) in
    let e₃ = slices 8 4 12 12 16 bs (omega arith) (omega arith) in
    let e₂ = slices 4 4 16 8 20 bs (omega arith) (omega arith) in
    let e₁ = slices 0 4 20 4 24 bs (omega arith) (omega arith) in rw (e₅, e₄, e₃, e₂) e₁

-- Any 24 bytes decode to a header whose encoding they are.
pub encode-read_words :
    (bs : List ℕ)
    → tcp_header_size ≤ length bs
    → AllBytes bs
    → Returns (read_words bs) λ h. Fits h × (encode h ≡ take tcp_header_size bs)
unfolding read_words write_header
encode-read_words bs le bytes =
    let (a, ra, (fa, ea)) = get_u32_lem bs (omega arith) bytes in
    let (b, rb, (fb, eb)) =
      get_u32_lem (drop 4 bs) (omega (arith, length-drop 4 bs)) (drop-AllBytes 4 bs bytes) in
    let (c, rc, (fc, ec)) =
      get_u32_lem (drop 8 bs) (omega (arith, length-drop 8 bs)) (drop-AllBytes 8 bs bytes) in
    let (d, rd, (fd, ed)) =
      get_u32_lem (drop 12 bs) (omega (arith, length-drop 12 bs)) (drop-AllBytes 12 bs bytes) in
    let (e, re, (fe, ee)) =
      get_u32_lem (drop 16 bs) (omega (arith, length-drop 16 bs)) (drop-AllBytes 16 bs bytes) in
    let (f, rf, (ff, ef)) =
      get_u32_lem (drop 20 bs) (omega (arith, length-drop 20 bs)) (drop-AllBytes 20 bs bytes) in
    (
      record { magic = a; version = b; cmd_type = c; data_len = d; seq_id = e; flags = f },
      rw (ra, ◌>>=◌, rb, rc, rd, re, rf),
      (
        record { magic = fa; version = fb; cmd_type = fc; data_len = fd; seq_id = fe; flags = ff },
        six ea eb ec ed ee ef ∙ six_slices bs,
      ),
    )

header_back :
    (h : TcpHeader) (rest : List ℕ)
    → Fits h
    → check_header h ≡ pos 0
    → parse_tcp_header (encode h ++ rest) ≡ ok (h, pos 0)
header_back h rest fits fine = parse_tcp_header-encode h rest fits ∙ ap (λ c. ok (h, c)) fine

-- A response is 24 bytes and the result; it decodes to a header with the command and the sequence
-- number of the request and the length of the result, followed by the result.
pub parse-build :
    (cmd_type seq_id : ℕ) (result : Str)
    → cmd_type < 2 ^ 32
    → seq_id < 2 ^ 32
    → length result ≤ 1024
    → let (bytes, size) = build_tcp_response cmd_type seq_id result in
      (length bytes ≡ size)
      × (parse_tcp_header bytes
          ≡ ok (
            record {
              magic = tcp_magic;
              version = tcp_version;
              cmd_type = cmd_type;
              data_len = length result;
              seq_id = seq_id;
              flags = 0;
            },
            pos 0,
          ))
      × (drop tcp_header_size bytes ≡ result)
unfolding build_tcp_response check_header
parse-build cmd_type seq_id result fc fs le =
    let h : TcpHeader = record {
      magic = tcp_magic;
      version = tcp_version;
      cmd_type = cmd_type;
      data_len = length result;
      seq_id = seq_id;
      flags = 0;
    } in
    (
      omega arith,
      header_back h result
          (record {
            magic = omega arith;
            version = omega arith;
            cmd_type = fc;
            data_len = omega arith;
            seq_id = fs;
            flags = omega arith;
          })
          (ground arith),
      refl,
    )
