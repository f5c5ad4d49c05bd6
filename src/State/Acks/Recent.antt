-- ===== src/State/Acks/Recent.antt =====
-- An acknowledgement that was recorded, read again.
use lite_checker.Prelude.{
  ℕ, ◌+◌, ◌*◌, ◌≤◌, ◌≡◌, refl, String, true, false, some, ◌&&◌, leb, count, string_eq, nat_eq, ◌==◌,
  Option, returned, ap, arith, inl, inr, Bool-cases,
}
use lite_checker.Json.{obj, get}
use lite_checker.State.{ok, Reply, File, holds, Host, locked, read_object, write_object}
use lite_checker.State.Acks.{ack_fields, record_ack, is_recent}

module _ (show_time : ℕ → String) (h : Host) (id : String) (t : ℕ) (f : File) where
  abbrev IsWritten : Reply (Unit {0}) × File → Type 0
  IsWritten r = r.0 ≡ ok tt → (r.1 ≡ holds (obj (ack_fields id (show_time t)))) × (1 ≤ count id)

  -- what a record that returns has done
  pub record_ack-IsWritten : IsWritten (record_ack show_time h id t f)
  unfolding record_ack locked write_object
  record_ack-IsWritten = elim (Bool-cases (leb 1 (count id) && leb (count id) 512)) [
    | inr b ↦ rw b (λ e. absurd (cc e))
    | inl b ↦ rw b (elim (Bool-cases h.acquires) [
      | inr a ↦ simp a (λ e. absurd (cc e))
      | inl a ↦ simp a (elim (Bool-cases h.releases) [
        | inr r ↦ simp r (λ e. absurd (cc e))
        | inl r ↦ simp r (elim (Bool-cases h.writes) [
          | inr w ↦ simp w (λ e. absurd (cc e))
          | inl w ↦ simp w (λ e. (refl, ground (arith, b)))
        ])
      ])
    ])
  ]

filled : (id : String) → 1 ≤ count id → (id == "") ≡ false
filled id h = elim (Bool-cases (id == "")) [
  | inr t ↦ t
  | inl t ↦
      let none_of : count id ≡ 0 = ap count ((string_eq.same_iff id "").0 t) in absurd (omega arith)
]

-- Once an acknowledgement has been recorded, a host that gets the lock finds it recent exactly if it
-- is not of the future and at most as old as asked, where the text of its time is read as that time.
pub record_ack-is_recent :
    (show_time : ℕ → String) (read_time : String → Option ℕ) (h reader : Host) (id : String)
    (t now max_age : ℕ) (f : File)
    → read_time (show_time t) ≡ some t
    → (record_ack show_time h id t f).0 ≡ ok tt
    → reader.acquires ≡ true
    → reader.releases ≡ true
    → 1 ≤ max_age
    → is_recent read_time now max_age reader (record_ack show_time h id t f).1
      ≡ returned (leb t now && leb now (t + max_age * 1000000))
unfolding is_recent locked read_object get
record_ack-is_recent show_time read_time h reader id t now max_age f same e a r m =
    let (written, some_of) = record_ack-IsWritten show_time h id t f e in
    let asked : (max_age == 0) ≡ false = ground arith in
    rw (written, asked) (simp (a, r) (rw (filled id some_of, same) refl))
