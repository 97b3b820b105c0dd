-- ===== src/Protocol/Zsets.antt =====
-- `kvs_tcp_protocol` of kvstore.c on the skip list of kvs_skiptable.c. The addresses that the allocations of
-- nodes give, the numbers drawn for each, and the conversions of a `double` are parameters.
use kv_study.Prelude.{
  ℕ, suc, ◌≤◌, ◌<◌, ◌≡◌, refl, ◌∙◌, ap, ◌==◌, Bool, Bool-cases, inl, inr, true, false, Option, some,
  List, [], ◌∷◌, ◌++◌, length, take, ℤ, Str, codes, if◌then◌else◌, Run, ok, Returns, ◌>>=◌, arith,
}
use kv_study.Engine.{TreeOps, ZsetOps}
use kv_study.Skip.{Double, SkipList, Allocation, ZrangeEntry}
use kv_study.Skip.Calls.{kvs_skiptable_zadd, kvs_skiptable_zrem, kvs_skiptable_zrange_entries}
use kv_study.Skip.Towers.{Tower}
use kv_study.Skip.State.{Represents}
use kv_study.Skip.Add.{Succeeds}
use kv_study.Skip.Order.{IsOrdered, entries, Sorted, insort, contains}
use kv_study.Skip.Zadd.{kvs_skiptable_zadd-insort}
use kv_study.Skip.Zrange.{in_range, kvs_skiptable_zrange_entries-in_range}
use kv_study.Skip.Sorted.{IsNumber, Numbers, insort-Sorted, few_enough}
use kv_study.Protocol.{
  State, kvs_tcp_protocol, answer, three_way, run_cmd, run_zadd, run_zrange, print_entries,
}
use kv_study.Protocol.Request.{Cmd, cmd_of, key_of, value_of}
use kv_study.Protocol.Payload.{Lacks, cut_at-pair, key_of-pair, value_of-pair}
use kv_study.Protocol.Replies.{Request, request_bytes, reply, protocol-request}

-- The list, and how many nodes were allocated.
pub record Ranked (Score : Type 0) : Type 0 where
  pub list : SkipList Score
  pub count : ℕ

module _ {Score : Type 0} where
  abbrev pub triples : List (ZrangeEntry Score) → List (Str × Str × Score)
  triples [] = []
  triples (e ∷ es) = (e.key, e.value, e.score) ∷ triples es

  abbrev counted_up : ℕ → SkipList Score × ℤ → Ranked Score × ℤ
  counted_up n w = (record { list = w.0; count = n }, w.1)

-- The conversions of the C library between text and `double`.
pub record Conversions (Score : Type 0) : Type 0 where
  pub atof : Str → Score
  pub scan_two : Str → Option (Score × Score)
  pub print_score : Score → Str

module _ {Score : Type 0} ⦃double : Double Score⦄ (c : Conversions Score) (node_address : ℕ → ℕ)
    (update : ℕ → ℕ) (rand : ℕ → ℕ → ℕ) where
  abbrev pub granted : ℕ → Allocation
  granted n = record {
    address = node_address n;
    key_copied = true;
    value_copied = true;
    forward_allocated = true;
  }

  -- Calls with every allocation granted, with fuel for the nodes allocated.
  abbrev pub zset_ops : ZsetOps
  zset_ops = record {
    Zset = Ranked Score;
    Score = Score;
    atof = c.atof;
    scan_two = c.scan_two;
    print_score = c.print_score;
    kvs_skiptable_zadd = λ g key value score.
        kvs_skiptable_zadd (suc (suc g.count)) update (rand g.count) (granted g.count) g.list key
          value score
        >>= λ w. ok (counted_up (suc g.count) w);
    kvs_skiptable_zrem = λ g key.
        kvs_skiptable_zrem (suc g.count) update g.list key >>= λ w. ok (counted_up g.count w);
    kvs_skiptable_zrange_entries = λ g min max max_results.
        kvs_skiptable_zrange_entries (suc g.count) g.list min max max_results >>= λ w.
        ok (triples w.1);
  }

  -- The list with its entries in order, none of them NaN; the next address is that of no node.
  pub record Ranks (g : Ranked Score) (ts : List (Tower Score)) : Type 0 where
    pub nodes : Represents g.list ts
    pub sorted : Sorted (entries ts)
    pub numbers : Numbers (entries ts)
    pub bounded : length ts ≤ g.count
    pub few : length ts < 2147483647
    pub not_null : (node_address g.count == 0) ≡ false
    pub unused : g.list.memory.live (node_address g.count) ≡ false

  cmd_of-zadd : (n : ℕ) → n ≡ 31 → cmd_of n ≡ Cmd.zadd
  unfolding cmd_of
  cmd_of-zadd n e = rw e refl

  cmd_of-zrange : (n : ℕ) → n ≡ 33 → cmd_of n ≡ Cmd.zrange
  unfolding cmd_of
  cmd_of-zrange n e = rw e refl

  module _ (o : IsOrdered Score) (trees : TreeOps)
      (save : State trees zset_ops → Run (State trees zset_ops × ℤ)) where
    answer_as :
        (r : Request) (e : State trees zset_ops) (cmd : Cmd) (key value : Option Str)
        (w : State trees zset_ops × Str)
        → cmd_of r.header.cmd_type ≡ cmd
        → key_of r.payload ≡ key
        → value_of r.payload ≡ value
        → run_cmd trees zset_ops save cmd key value e ≡ ok w
        → kvs_tcp_protocol trees zset_ops save (request_bytes r) e
          ≡ ok (w.0, (reply r.header w.1).0, (reply r.header w.1).1)
    unfolding answer
    answer_as r e cmd key value w c k v run =
        protocol-request trees zset_ops save r e ∙ rw (c, k, v, run) refl

    abbrev pub stored : Bool → Str
    stored there = if there then codes "EXIST" else codes "OK"

    run_zadd-insort :
        (e : State trees zset_ops) (ts : List (Tower Score)) (key member text : Str)
        → Ranks e.zset ts
        → Lacks b' ' member
        → Returns
            (run_cmd trees zset_ops save Cmd.zadd (some key) (some (member ++ b' ' ∷ text)) e)
            λ (e', result).
              (result ≡ stored (contains (c.atof text) key (entries ts)))
              × (e'.zset.count ≡ suc e.zset.count)
              × ((us : List (Tower Score)) × Represents e'.zset.list us
                  × (entries us ≡ insort (c.atof text) key member (entries ts)))
    unfolding run_cmd run_zadd three_way
    run_zadd-insort e ts key member text h word =
        let g = e.zset in
        let s : Succeeds g.list.memory (granted g.count) = record {
          not_null = h.not_null;
          unused = h.unused;
          key_duplicated = refl;
          value_duplicated = refl;
          array = refl;
        } in
        let (w, run, (us, rep, same, code)) =
          kvs_skiptable_zadd-insort (suc (suc g.count)) update (rand g.count) (granted g.count)
            g.list key member (c.atof text) o ts h.nodes s h.sorted (omega (arith, h.bounded))
            h.few in
        let e' = record e { zset = record { list = w.0; count = suc g.count } } in
        elim (Bool-cases (contains (c.atof text) key (entries ts))) [
          | inl there ↦ (
            (e', codes "EXIST"),
            ground (arith, cut_at-pair b' ' member text word, run, code, there),
            (rw there refl, refl, (us, rep, same)),
          )
          | inr fresh ↦ (
            (e', codes "OK"),
            ground (arith, cut_at-pair b' ' member text word, run, code, fresh),
            (rw fresh refl, refl, (us, rep, same)),
          )
        ]

    -- What ZRANGE prints: at most 100 entries of the interval, and those that fit into the result.
    abbrev pub listing : Score → Score → List (ZrangeEntry Score) → Str
    listing low high es = print_entries trees zset_ops 0 (triples (take 100 (in_range low high es)))

    run_zrange-in_range :
        (e : State trees zset_ops) (us : List (Tower Score)) (key text : Str) (low high : Score)
        → Represents e.zset.list us
        → Sorted (entries us)
        → length us < suc e.zset.count
        → c.scan_two text ≡ some (low, high)
        → run_cmd trees zset_ops save Cmd.zrange (some key) (some text) e
          ≡ ok (e, listing low high (entries us))
    unfolding run_cmd run_zrange
    run_zrange-in_range e us key text low high rep sorted enough scanned =
        let (result, run, (rep', found)) =
          kvs_skiptable_zrange_entries-in_range o low high (suc e.zset.count) e.zset.list 100 us rep
            sorted enough in
        ground (arith, scanned, run, found)

    -- With a fresh node from the allocation, for comparisons of doubles that are an order, and for a score
    -- that is a number: ZADD of a key, a member and a score is answered EXIST where an entry of this score
    -- and key is there and OK otherwise, and ZRANGE then answers the entries of the interval from those that
    -- sorted insertion makes, at most 100 of them and those that fit into the result. No key has a NUL or
    -- a blank, the member no blank, and no payload a NUL.
    pub zadd-zrange :
        (r next : Request) (e : State trees zset_ops) (ts : List (Tower Score))
        (key member text other_key bounds : Str) (low high : Score)
        → Ranks e.zset ts
        → IsNumber (c.atof text)
        → r.header.cmd_type ≡ 31
        → r.payload ≡ key ++ b' ' ∷ (member ++ b' ' ∷ text)
        → Lacks 0 key
        → Lacks b' ' key
        → Lacks b' ' member
        → Lacks 0 (member ++ b' ' ∷ text)
        → next.header.cmd_type ≡ 33
        → next.payload ≡ other_key ++ b' ' ∷ bounds
        → Lacks 0 other_key
        → Lacks b' ' other_key
        → Lacks 0 bounds
        → c.scan_two bounds ≡ some (low, high)
        → Returns
            (do
              (e', response, code) ← kvs_tcp_protocol trees zset_ops save (request_bytes r) e
              (e'', response', code') ← kvs_tcp_protocol trees zset_ops save (request_bytes next) e'
              ok (e'', response, response'))
            λ (e'', response, response').
              (response ≡ (reply r.header (stored (contains (c.atof text) key (entries ts)))).0)
              × (response'
                  ≡ (reply next.header
                      (listing low high (insort (c.atof text) key member (entries ts)))).0)
    zadd-zrange r next e ts key member text other_key bounds low high h number adds sent clean word
          one_word clean_value ranges asked clean' word' clean_bounds scanned =
        let k = ap key_of sent ∙ key_of-pair key (member ++ b' ' ∷ text) clean word clean_value in
        let v =
          ap value_of sent ∙ value_of-pair key (member ++ b' ' ∷ text) clean word clean_value in
        let k' = ap key_of asked ∙ key_of-pair other_key bounds clean' word' clean_bounds in
        let v' = ap value_of asked ∙ value_of-pair other_key bounds clean' word' clean_bounds in
        let (w, ran, (stored_as, counted, (us, rep, same))) =
          run_zadd-insort e ts key member text h one_word in
        let run =
          answer_as r e Cmd.zadd (some key) (some (member ++ b' ' ∷ text)) w
            (cmd_of-zadd r.header.cmd_type adds) k v ran in
        let order : Sorted (entries us) =
          rw same
            (insort-Sorted o (c.atof text) key member (entries ts) number h.numbers h.sorted) in
        let enough =
          few_enough us ts (c.atof text) key member (suc (suc e.zset.count)) same
            (omega (arith, h.bounded)) in
        let run' =
          answer_as next w.0 Cmd.zrange (some other_key) (some bounds)
            (w.0, listing low high (entries us)) (cmd_of-zrange next.header.cmd_type ranges) k' v'
            (run_zrange-in_range w.0 us other_key bounds low high rep order (rw counted enough)
              scanned) in
        (
          (w.0, (reply r.header w.1).0, (reply next.header (listing low high (entries us))).0),
          rw (run, run') refl,
          (
            ap (λ s. (reply r.header s).0) stored_as,
            ap (λ es. (reply next.header (listing low high es)).0) same,
          ),
        )
