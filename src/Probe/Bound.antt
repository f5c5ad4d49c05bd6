-- ===== src/Probe/Bound.antt =====
-- `_bound_target`: the outbound that dials one checked address.
use lite_checker.Prelude.{
  String, Option, none, some, ◌≡◌, ◌≢◌, refl, arith, and_then, and_then-eq_some, subst,
  Option-cases, inl, inr, eq_iff, Outcome, returned, raised, xray_unavailable, string_eq,
}
use lite_checker.Json.{Json, Fields, obj, arr, text, cons, get, put, get-put}
use lite_checker.Models.{Ip, TargetConfig}

-- `outbound["settings"]["vnext"][0]["address"] = address`
set_first : Json → String → Option Json
set_first (arr (cons (obj server) rest)) a =
    some (arr (cons (obj (put server "address" (text a))) rest))
set_first _ a = none

set_vnext : Json → String → Option Json
set_vnext (obj settings) a =
    and_then (get settings "vnext")
      λ v. and_then (set_first v a) λ v'. some (obj (put settings "vnext" v'))
set_vnext _ a = none

set_address : Fields → String → Option Fields
set_address outbound a =
    and_then (get outbound "settings")
      λ s. and_then (set_vnext s a) λ s'. some (put outbound "settings" s')

unfoldable pub bound_target : (Ip → String) → TargetConfig → Ip → Outcome TargetConfig
unfolding set_address set_vnext set_first
bound_target ip_text t a = elim (set_address t.outbound (ip_text a)) [
  | none ↦ raised (xray_unavailable "xray-config")
  | some o ↦ returned (record t { outbound = o })
]

-- The address that an outbound dials.
first_address : Json → Option Json
first_address (arr (cons (obj server) rest)) = get server "address"
first_address _ = none

vnext_address : Json → Option Json
vnext_address (obj settings) = and_then (get settings "vnext") first_address
vnext_address _ = none

pub dialled : Fields → Option Json
unfolding first_address vnext_address
dialled o = and_then (get o "settings") vnext_address

-- `b` is `t`, but for the address that its outbound dials, which is `a`.
pub record TargetAt (t b : TargetConfig) (a : String) : Type 0 where
  pub same_id : b.target_id ≡ t.target_id
  pub same_host : b.address ≡ t.address
  pub same_port : b.port ≡ t.port
  pub same_kind : b.check_kind ≡ t.check_kind
  pub dials : dialled b.outbound ≡ some (text a)
  pub rest : (k : String) → k ≢ "settings" → get b.outbound k ≡ get t.outbound k

-- Which shape of the outbound lets `set_address` succeed, and what it makes of it.
set_first_lem :
    (v v' : Json) (a : String) → set_first v a ≡ some v' → first_address v' ≡ some (text a)
unfolding set_first first_address
set_first_lem (arr (cons (obj server) rest)) v' a e =
    ground (arith, get-put server "address" "address" (text a))
set_first_lem v v' a e = cc

stored_vnext :
    (settings : Fields) (w : Json) {v : Json} (c : Json)
    → first_address w ≡ some c
    → obj (put settings "vnext" w) ≡ v
    → vnext_address v ≡ some c
unfolding vnext_address
stored_vnext settings w c f e = rw (← e) (rw get-put f)

set_vnext_lem :
    (v v' : Json) (a : String) → set_vnext v a ≡ some v' → vnext_address v' ≡ some (text a)
unfolding set_vnext
set_vnext_lem (obj settings) v' a e =
    let (v, _, f) = and_then-eq_some (get settings "vnext") _ e in
    let (w, g, h) = and_then-eq_some (set_first v a) _ f in
    stored_vnext settings w (text a) (set_first_lem v w a g) (cc)
set_vnext_lem v v' a e = cc

stored_address :
    (o : Fields) (w : Json) {o' : Fields} (c : Json)
    → vnext_address w ≡ some c
    → put o "settings" w ≡ o'
    → (dialled o' ≡ some c) × ((k : String) → k ≢ "settings" → get o' k ≡ get o k)
unfolding dialled
stored_address o w c f e =
    (rw (← e) (rw get-put f), λ k ne. rw (← e) (rw get-put (ground (arith, eq_iff "settings" k))))

set_address_lem :
    (o o' : Fields) (a : String)
    → set_address o a ≡ some o'
    → (dialled o' ≡ some (text a)) × ((k : String) → k ≢ "settings" → get o' k ≡ get o k)
unfolding set_address
set_address_lem o o' a e =
    let (v, _, f) = and_then-eq_some (get o "settings") _ e in
    let (w, g, h) = and_then-eq_some (set_vnext v a) _ f in
    stored_address o w (text a) (set_vnext_lem v w a g) (cc)

bound_at :
    (t b : TargetConfig) (a : String) (o : Fields)
    → set_address t.outbound a ≡ some o
    → record t { outbound = o } ≡ b
    → TargetAt t b a
bound_at t b a o f e =
    subst (λ x. TargetAt t x a) e
      (let (dials, rest) = set_address_lem t.outbound o a f in
        record {
          same_id = refl;
          same_host = refl;
          same_port = refl;
          same_kind = refl;
          dials = dials;
          rest = rest;
        })

-- A bound target dials the address that was checked and keeps the rest: the identity, the host
-- name and port of the target, and all of the outbound outside of its `settings`.
pub bound_target-TargetAt :
    (ip_text : Ip → String) (t b : TargetConfig) (a : Ip)
    → bound_target ip_text t a ≡ returned b
    → TargetAt t b (ip_text a)
unfolding bound_target
bound_target-TargetAt ip_text t b a e = elim (Option-cases (set_address t.outbound (ip_text a))) [
  | inl f ↦ absurd (cc (f, e))
  | inr (o, f) ↦ bound_at t b (ip_text a) o f (ground arith)
]
