-- ===== src/Probe/Addresses.antt =====
-- The parsing, deduplication and ordering of the resolver's answers, which have no scope id.
use lite_checker.Prelude.{
  Bool, true, false, Option, none, some, List, [], ◌∷◌, ◌≡◌, ◌⊎◌, ◌↔◌, inl, inr, ltb, if◌then◌else◌,
  arith, Some, Bool-cases, subst,
}
use lite_checker.Models.{Ip, v4, v6}

-- `[ipaddress.ip_address(address) for address in raw_addresses]`; `none` for a `ValueError`
unfoldable pub parse_all : List (Option Ip) → Option (List Ip)
parse_all [] = some []
parse_all (none ∷ rest) = none
parse_all (some a ∷ rest) = elim (parse_all rest) [ none ↦ none | some ips ↦ some (a ∷ ips) ]

-- The order by the key `(item.version, int(item))`.
unfoldable pub ip_lt : Ip → Ip → Bool
ip_lt (v4 a) (v4 b) = ltb a b
ip_lt (v4 a) (v6 b) = true
ip_lt (v6 a) (v4 b) = false
ip_lt (v6 a) (v6 b) = ltb a b

-- The place of an address in a sorted list without repetitions.
insert_address : Ip → List Ip → List Ip
insert_address a [] = a ∷ []
insert_address a (b ∷ rest) =
    if ip_lt a b then a ∷ b ∷ rest else if ip_lt b a then b ∷ insert_address a rest else b ∷ rest

-- `sorted(set(parsed_addresses), key=...)`
unfoldable pub sort_addresses : List Ip → List Ip
unfolding insert_address ip_lt
sort_addresses [] = []
sort_addresses (a ∷ rest) = insert_address a (sort_addresses rest)

-- The tests of the key, as an order.
ip_lt_total : (a b : Ip) → ip_lt a b ≡ false → ip_lt b a ≡ false → a ≡ b
unfolding ip_lt
ip_lt_total (v4 a) (v4 b) h k = ground arith
ip_lt_total (v6 a) (v6 b) h k = ground arith
ip_lt_total (v4 a) (v6 b) h k = cc
ip_lt_total (v6 a) (v4 b) h k = cc

insert_address-Some :
    (P : Ip → Type 0) (a : Ip) (xs : List Ip) → (P a ⊎ Some P xs) → Some P (insert_address a xs)
unfolding insert_address
insert_address-Some P a [] h = h
insert_address-Some P a (b ∷ rest) h = elim (Bool-cases (ip_lt a b)) [
  | inl e ↦ rw e h
  | inr e ↦ rw e (elim (Bool-cases (ip_lt b a)) [
    | inl f ↦ rw f (elim h [
      | inl p ↦ inr (insert_address-Some P a rest (inl p))
      | inr (inl q) ↦ inl q
      | inr (inr q) ↦ inr (insert_address-Some P a rest (inr q))
    ])
    | inr f ↦ rw f (elim h [ inl p ↦ inl (subst P (ip_lt_total a b e f) p) | inr q ↦ q ])
  ])
]

Some-insert_address :
    (P : Ip → Type 0) (a : Ip) (xs : List Ip) → Some P (insert_address a xs) → P a ⊎ Some P xs
unfolding insert_address
Some-insert_address P a [] h = h
Some-insert_address P a (b ∷ rest) h = pick (ip_lt a b) (ip_lt b a) (Some-insert_address P a rest) h
  where
    pick :
        (x y : Bool)
        → (Some P (insert_address a rest) → P a ⊎ Some P rest)
        → Some P (if x then a ∷ b ∷ rest else if y then b ∷ insert_address a rest else b ∷ rest)
        → P a ⊎ P b ⊎ Some P rest
    pick true y ih h = h
    pick false true ih (inl q) = inr (inl q)
    pick false true ih (inr q) = elim (ih q) [ inl p ↦ inl p | inr r ↦ inr (inr r) ]
    pick false false ih h = inr h

-- Sorting and deduplication lose no address and add none: whatever holds of some answer holds of
-- some dialled address, and the other way round.
pub sort_addresses-Some : (P : Ip → Type 0) (xs : List Ip) → Some P (sort_addresses xs) ↔ Some P xs
unfolding sort_addresses
sort_addresses-Some P [] = (λ h. h, λ h. h)
sort_addresses-Some P (a ∷ rest) =
    let ih = sort_addresses-Some P rest in
    (
      λ h. elim (Some-insert_address P a (sort_addresses rest) h) [
        | inl p ↦ inl p
        | inr q ↦ inr (ih.0 q)
      ],
      λ h. elim h [
        | inl p ↦ insert_address-Some P a (sort_addresses rest) (inl p)
        | inr q ↦ insert_address-Some P a (sort_addresses rest) (inr (ih.1 q))
      ],
    )
