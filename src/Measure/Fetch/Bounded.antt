-- ===== src/Measure/Fetch/Bounded.antt =====
-- What a subscription that was fetched says of the answer.
use lite_checker.Prelude.{
  ℕ, ◌+◌, ◌≡◌, ◌≤◌, ◌∙◌, refl, sym, ap, subst, String, ◌↔◌, true, false, List, [], ◌∷◌, ◌++◌,
  length, length-append, ltb, nat_eq, nat_beq_iff, Bool-cases, inl, inr, arith,
}
use mathlib.Core.List.{append_assoc, append-nil}
use lite_checker.Measure.Fetch.{
  Chunk, bytes, slow, cut_off, Response, Answer, responds, times_out, fails, Fetched, fetched,
  plain, Number, number, no_number, too_long, read_number, stale_or, check_age, large_or,
  check_length, read_body, fetch,
}

-- the bytes of a body that came whole
abbrev pub IsBody : List Chunk → List ℕ → Type 0
IsBody [] p = p ≡ []
IsBody (bytes c ∷ cs) p = (q : List ℕ) × (p ≡ c ++ q) × IsBody cs q
IsBody (slow ∷ cs) p = ⊥
IsBody (cut_off ∷ cs) p = ⊥

-- no Age, or one that says 0
abbrev pub IsFresh : List String → Type 0
IsFresh [] = Unit
IsFresh (a ∷ []) = read_number a ≡ number 0
IsFresh (a ∷ b ∷ others) = ⊥

-- no Content-Length, or one within the limit
abbrev pub IsAnnounced : ℕ → List String → Type 0
IsAnnounced max [] = Unit
IsAnnounced max (a ∷ []) = (n : ℕ) × (read_number a ≡ number n) × (n ≤ max)
IsAnnounced max (a ∷ b ∷ others) = ⊥

read_body-IsBody :
    (max : ℕ) (payload : List ℕ) (cs : List Chunk) (p : List ℕ)
    → length payload ≤ max
    → read_body max payload cs ≡ fetched p
    → (length p ≤ max) × ((q : List ℕ) × (p ≡ payload ++ q) × IsBody cs q)
unfolding read_body
read_body-IsBody max payload [] p small h =
    let same : payload ≡ p = ground arith in
    (subst (λ q. length q ≤ max) same small, ([], sym same ∙ sym (append-nil payload), refl))
read_body-IsBody max payload (slow ∷ cs) p small h = absurd (cc h)
read_body-IsBody max payload (cut_off ∷ cs) p small h = absurd (cc h)
read_body-IsBody max payload (bytes c ∷ cs) p small h =
    elim (Bool-cases (ltb max (length payload + length c))) [
      | inl t ↦ absurd (cc (h, t))
      | inr t ↦
          let fits : length (payload ++ c) ≤ max = ground (arith, length-append payload c) in
          let (bound, (q, same, body)) =
            read_body-IsBody max (payload ++ c) cs p fits (ground (arith)) in
          (bound, (c ++ q, same ∙ append_assoc payload c q, (q, refl, body)))
    ]

check_age-IsFresh :
    (ages : List String) (rest : Fetched) (p : List ℕ)
    → check_age ages rest ≡ fetched p
    → IsFresh ages × (rest ≡ fetched p)
unfolding check_age
check_age-IsFresh [] rest p h = (tt, h)
check_age-IsFresh (a ∷ b ∷ others) rest p h = absurd (cc h)
check_age-IsFresh (a ∷ []) rest p h = split (read_number a) refl h
  where
    split :
        (n : Number)
        → read_number a ≡ n
        → stale_or n rest ≡ fetched p
        → (read_number a ≡ number 0) × (rest ≡ fetched p)
    split no_number e k = absurd (cc k)
    split too_long e k = absurd (cc k)
    split (number n) e k = elim (Bool-cases (ltb 0 n)) [
      | inl t ↦ absurd (cc (k, t))
      | inr t ↦ let none_old : n ≡ 0 = ground arith in (e ∙ ap number none_old, ground (arith, t))
    ]

check_length-IsAnnounced :
    (max : ℕ) (lengths : List String) (rest : Fetched) (p : List ℕ)
    → check_length max lengths rest ≡ fetched p
    → IsAnnounced max lengths × (rest ≡ fetched p)
unfolding check_length
check_length-IsAnnounced max [] rest p h = (tt, h)
check_length-IsAnnounced max (a ∷ b ∷ others) rest p h = absurd (cc h)
check_length-IsAnnounced max (a ∷ []) rest p h = split (read_number a) refl h
  where
    split :
        (n : Number)
        → read_number a ≡ n
        → large_or max n rest ≡ fetched p
        → IsAnnounced max (a ∷ []) × (rest ≡ fetched p)
    split no_number e k = absurd (cc k)
    split too_long e k = absurd (cc k)
    split (number n) e k = elim (Bool-cases (ltb max n)) [
      | inl t ↦ absurd (cc (k, t))
      | inr t ↦ ((n, e, ground arith), ground (arith, t))
    ]

-- each test lets such an answer through
IsBody-read_body :
    (max : ℕ) (payload : List ℕ) (cs : List Chunk) (q : List ℕ)
    → IsBody cs q
    → length (payload ++ q) ≤ max
    → read_body max payload cs ≡ fetched (payload ++ q)
unfolding read_body
IsBody-read_body max payload [] q h small =
    ap fetched (sym (append-nil payload) ∙ ap (λ x. payload ++ x) (sym h))
IsBody-read_body max payload (slow ∷ cs) q h small = absurd h
IsBody-read_body max payload (cut_off ∷ cs) q h small = absurd h
IsBody-read_body max payload (bytes c ∷ cs) q (rest, same, h) small =
    let joined : payload ++ q ≡ (payload ++ c) ++ rest =
      ap (λ x. payload ++ x) same ∙ sym (append_assoc payload c rest) in
    let within : length ((payload ++ c) ++ rest) ≤ max = subst (λ x. length x ≤ max) joined small in
    let fits : ltb max (length payload + length c) ≡ false =
      ground (arith, length-append payload c, length-append (payload ++ c) rest) in
    rw fits (IsBody-read_body max (payload ++ c) cs rest h within ∙ ap fetched (sym joined))

IsFresh-check_age :
    (ages : List String) (rest : Fetched) → IsFresh ages → check_age ages rest ≡ rest
unfolding check_age
IsFresh-check_age [] rest h = refl
IsFresh-check_age (a ∷ []) rest h = rw h refl
IsFresh-check_age (a ∷ b ∷ others) rest h = absurd h

IsAnnounced-check_length :
    (max : ℕ) (lengths : List String) (rest : Fetched)
    → IsAnnounced max lengths
    → check_length max lengths rest ≡ rest
unfolding check_length
IsAnnounced-check_length max [] rest h = refl
IsAnnounced-check_length max (a ∷ []) rest (n, e, le) =
    let fits : ltb max n ≡ false = ground arith in rw e (rw fits refl)
IsAnnounced-check_length max (a ∷ b ∷ others) rest h = absurd h

abbrev rest_of : ℕ → Response → Fetched
rest_of max r = check_length max r.content_lengths (read_body max [] r.body)

-- the response gives this subscription
pub record IsGiven (max : ℕ) (r : Response) (p : List ℕ) : Type 0 where
  pub small : length p ≤ max
  pub whole : IsBody r.body p
  pub fresh : IsFresh r.ages
  pub announced : IsAnnounced max r.content_lengths
  pub found : r.status_code ≡ 200
  pub bare : plain r.content_encodings ≡ true

fetch-IsGiven :
    (max : ℕ) (r : Response) (p : List ℕ) → fetch max (responds r) ≡ fetched p → IsGiven max r p
unfolding fetch
fetch-IsGiven max r p h = elim (Bool-cases (nat_eq.same r.status_code 200)) [
  | inr t ↦ absurd (cc (h, t))
  | inl found ↦ elim (Bool-cases (plain r.content_encodings)) [
    | inr t ↦ absurd (cc (h, found, t))
    | inl bare ↦
        let (fresh, rest) = check_age-IsFresh r.ages (rest_of max r) p (rw (found, bare) at h) in
        let (announced, read) =
          check_length-IsAnnounced max r.content_lengths (read_body max [] r.body) p rest in
        let (bound, (q, same, body)) = read_body-IsBody max [] r.body p (omega arith) read in
        record {
          small = bound;
          whole = subst (IsBody r.body) (sym same) body;
          fresh = fresh;
          announced = announced;
          found = (nat_beq_iff r.status_code 200).0 found;
          bare = bare;
        }
  ]
]

IsGiven-fetch :
    (max : ℕ) (r : Response) (p : List ℕ) → IsGiven max r p → fetch max (responds r) ≡ fetched p
unfolding fetch
IsGiven-fetch max r p k =
    let found : nat_eq.same r.status_code 200 ≡ true = (nat_beq_iff r.status_code 200).1 k.found in
    rw (found, k.bare)
      (IsFresh-check_age r.ages (rest_of max r) k.fresh
        ∙ IsAnnounced-check_length max r.content_lengths (read_body max [] r.body) k.announced
        ∙ IsBody-read_body max [] r.body p k.whole k.small)

-- A fetch gives a subscription exactly when the server responds with status 200, no other encoding
-- than the identity, an age of 0 if it tells one and a length within the limit if it announces one,
-- and with a body that comes whole and has at most as many bytes as the limit says: the subscription
-- is then all of its chunks.
pub fetch-IsBody :
    (max : ℕ) (a : Answer) (p : List ℕ)
    → (fetch max a ≡ fetched p) ↔ ((r : Response) × (a ≡ responds r) × IsGiven max r p)
unfolding fetch
fetch-IsBody max a p = (gives a, λ (r, e, k). ap (fetch max) e ∙ IsGiven-fetch max r p k)
  where
    gives :
        (x : Answer) → fetch max x ≡ fetched p → (r : Response) × (x ≡ responds r) × IsGiven max r p
    gives times_out h = absurd (cc h)
    gives fails h = absurd (cc h)
    gives (responds r) h = (r, refl, fetch-IsGiven max r p h)
