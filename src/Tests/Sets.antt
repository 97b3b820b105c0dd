-- ===== src/Tests/Sets.antt =====
-- ZADD and ZRANGE over the wire, on the skip list of kvs_skiptable.c.
use kv_study.Prelude.{
  ℕ, ◌+◌, ◌-◌, ℤ, Run, ok, ◌≡◌, refl, if◌then◌else◌, Option, none, some, [], ◌∷◌, take, pos, Str,
  codes, ◌>>=◌, arith, Returns,
}
use kv_study.Skip.Order.{entries, insort, contains}
use kv_study.Skip.Zrange.{in_range}
use kv_study.Engine.{ZsetOps}
use kv_study.Protocol.{State, kvs_tcp_protocol, print_entries}
use kv_study.Protocol.Replies.{Request, request_bytes, reply}
use kv_study.Protocol.Zsets.{Ranked, Conversions, Ranks, triples, zset_ops, zadd-zrange}
use kv_study.Tests.Frames.{request, no_trees}
use kv_study.Tests.Tables.{one_key}
use kv_study.Tests.Chains.{empty_hash}
use kv_study.Tests.Levels.{
  Whole, whole_double, Whole-IsOrdered, two_list, two_towers, two_list-Represents, two_Sorted,
  key_a, key_b, draws,
}

-- One digit.
abbrev digit : Str → Whole
digit (b ∷ s) = some (b - 48)
digit [] = none

abbrev two_digits : Str → Option (Whole × Whole)
two_digits (a ∷ (blank ∷ (b ∷ s))) = some (some (a - 48), some (b - 48))
two_digits (a ∷ (blank ∷ [])) = none
two_digits (a ∷ []) = none
two_digits [] = none

abbrev print_digit : Whole → Str
print_digit (some n) = (n + 48) ∷ []
print_digit none = codes "nan"

abbrev digits : Conversions Whole
digits = record { atof = digit; scan_two = two_digits; print_score = print_digit }

abbrev next_address : ℕ → ℕ
next_address n = n + 2

abbrev sets : ZsetOps
sets = zset_ops digits next_address (λ i. 0) (λ n. draws)

abbrev ranked : Ranked Whole
ranked = record { list = two_list key_a key_b; count = 2 }

ranked-Ranks : Ranks digits next_address (λ i. 0) (λ n. draws) ranked (two_towers key_a key_b)
ranked-Ranks = record {
  nodes = two_list-Represents key_a key_b;
  sorted = two_Sorted;
  numbers = (refl, (refl, tt));
  bounded = omega arith;
  few = omega arith;
  not_null = refl;
  unused = refl;
}

abbrev set_engine : State no_trees sets
set_engine = record { array = one_key; hash = empty_hash; tree = tt; zset = ranked }

abbrev keep_sets : State no_trees sets → Run (State no_trees sets × ℤ)
keep_sets e = ok (e, pos 0)

abbrev zadd_b : Request
zadd_b = request 31 (omega arith) (codes "b a 1") (omega arith)

abbrev zrange_01 : Request
zrange_01 = request 33 (omega arith) (codes "s 0 1") (omega arith)

zadd-zrange_example :
    Returns
      (do
        (e', response, code) ←
            kvs_tcp_protocol no_trees sets keep_sets (request_bytes zadd_b) set_engine
        (e'', response', code') ←
            kvs_tcp_protocol no_trees sets keep_sets (request_bytes zrange_01) e'
        ok (e'', response, response'))
      λ (e'', response, response').
        (response
          ≡ (reply zadd_b.header (
              if contains (some 1) key_b (entries (two_towers key_a key_b))
              then codes "EXIST"
              else codes "OK")).0)
        × (response'
            ≡ (reply zrange_01.header (
                print_entries no_trees sets 0 (
                  triples (
                    take 100 (
                      in_range
                        (some 0)
                        (some 1)
                        (insort (some 1) key_b key_a (entries (two_towers key_a key_b)))))))).0)
zadd-zrange_example =
    zadd-zrange digits next_address (λ i. 0) (λ n. draws) Whole-IsOrdered no_trees keep_sets zadd_b
      zrange_01 set_engine (two_towers key_a key_b) key_b key_a (codes "1") (codes "s")
      (codes "0 1") (some 0) (some 1) ranked-Ranks refl refl refl (omega arith, tt)
      (omega arith, tt) (omega arith, tt) (omega arith, (omega arith, (omega arith, tt))) refl refl
      (omega arith, tt) (omega arith, tt) (omega arith, (omega arith, (omega arith, tt))) refl
