-- ===== src/Collector/Reports/Booted.antt =====
-- What `accept_report` of collector/db.py makes of the greatest sequences of the boots.
use lite_checker.Prelude.{
  ℕ, max, ◌≡◌, Bool, true, false, ◌&&◌, Option, none, some, List, [], ◌∷◌, ◌++◌, refl, ap, arith,
  inl, inr, any_of, Bool-cases, String, string_eq, nat_eq, ◌==◌, beq_refl,
}
use lite_checker.Collector.Rows.{Boot, first_where, update_where, delete_where}
use lite_checker.Collector.Reports.{upsert_boot}

module _ (agent boot : String) (sequence : ℕ) where
  abbrev pub is_boot : Boot → Bool
  is_boot b = b.agent_id == agent && b.boot_id == boot

  -- the row of the boot, with the greatest sequence
  abbrev pub noted : Option Boot → Boot
  noted none = record { agent_id = agent; boot_id = boot; max_sequence = sequence }
  noted (some b) = record b { max_sequence = max b.max_sequence sequence }

  -- The boot has its greatest sequence, and all others have theirs.
  abbrev pub BootNoted : List Boot → List Boot → Type 0
  BootNoted bs bs' =
      (first_where is_boot bs' ≡ some (noted (first_where is_boot bs)))
      × (delete_where is_boot bs' ≡ delete_where is_boot bs)

  abbrev raise : Boot → Boot
  raise b = record b { max_sequence = max b.max_sequence sequence }

  delete_where-update_where :
      (bs : List Boot)
      → delete_where is_boot (update_where is_boot raise bs) ≡ delete_where is_boot bs
  unfolding update_where delete_where
  delete_where-update_where [] = refl
  delete_where-update_where (b ∷ bs) = elim (Bool-cases (is_boot b)) [
    | inl e ↦ simp (e, delete_where-update_where bs)
    | inr e ↦ simp (e, delete_where-update_where bs)
  ]

  first_where-update_where :
      (bs : List Boot)
      → any_of is_boot bs ≡ true
      → first_where is_boot (update_where is_boot raise bs) ≡ some (noted (first_where is_boot bs))
  unfolding first_where update_where
  first_where-update_where [] h = cc
  first_where-update_where (b ∷ bs) h = elim (Bool-cases (is_boot b)) [
    | inl e ↦ simp e refl
    | inr e ↦ simp e (first_where-update_where bs (ground arith))
  ]

  append-BootNoted :
      (bs : List Boot) → any_of is_boot bs ≡ false → BootNoted bs (bs ++ noted none ∷ [])
  unfolding first_where delete_where
  append-BootNoted [] h = simp (beq_refl agent, beq_refl boot) (refl, refl)
  append-BootNoted (b ∷ bs) h = elim (Bool-cases (is_boot b)) [
    | inl e ↦ absurd (ground arith)
    | inr e ↦
        let later = append-BootNoted bs (ground arith) in
        simp e (later.0, ap (λ xs. b ∷ xs) later.1)
  ]

  pub upsert_boot-BootNoted : (bs : List Boot) → BootNoted bs (upsert_boot agent boot sequence bs)
  unfolding upsert_boot
  upsert_boot-BootNoted bs = elim (Bool-cases (any_of is_boot bs)) [
    | inl e ↦ rw e (first_where-update_where bs e, delete_where-update_where bs)
    | inr e ↦ rw e (append-BootNoted bs e)
  ]
