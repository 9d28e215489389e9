-- ===== src/Operators/Partitions.antt =====
-- The downstream partitions of key_by_runnable.rs and sink_runnable.rs.
use rlink_rs.Prelude.{ℕ, ◌%◌, ◌^◌, ◌<◌, ◌≡◌, refl, ◌==◌, false, some, [], ◌∷◌, arith}
use rlink_rs.Core.{Record, data_record}
use rlink_rs.Operators.{run_next, set_partition, run_key_by}

module _ {B : Type 0} where
  -- With between 1 and 65535 partitions, each record goes on, to a partition that there is; and two records
  -- whose keys have the same hash go to the same one.
  pub key_by_partition :
      (get_key : Record B → Record B × Record B) (hash_code : Record B → ℕ) (n : ℕ) (r q : Record B)
      → 0 < n
      → n < 2 ^ 16
      → hash_code (get_key r).0 ≡ hash_code (get_key q).0
      → (p : ℕ) × (p < n)
        × (run_key_by get_key hash_code n (data_record r)
            ≡ some (run_next (set_partition p (data_record (get_key r).1)) ∷ []))
        × (run_key_by get_key hash_code n (data_record q)
            ≡ some (run_next (set_partition p (data_record (get_key q).1)) ∷ []))
  unfolding run_key_by
  key_by_partition get_key hash_code n r q some_part small same =
      let nonzero : (n == 0) ≡ false = ground arith in
      (hash_code (get_key r).0 % n % 2 ^ 16, omega arith, rw nonzero refl, rw (nonzero, same) refl)
