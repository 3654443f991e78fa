-- ===== src/Server/Routing.antt =====
-- Server::getBackend of src/linear_fcgi_server.cc against a description of the backend it chooses.
use linear_fcgi.Common.{ℕ, ◌≡◌, refl, ap, ◌∙◌, ◌↔◌, inl, inr, arith}
use linear_fcgi.Common.{true, false, List, [], ◌∷◌, ◌++◌, Option, none, some}
use linear_fcgi.Common.{All, Bool-cases}
use linear_fcgi.Server.Origin.{
  Backend, Resource, Matcher, is_empty, is_allow_origin, find_backend, get_backend,
}
use mathlib.Core.Path.{subst}

-- The backend of the first resource whose pattern matches the channel, and it may be used.
abbrev pub Chosen : Matcher → (channel origin : List ℕ) → List Resource → Backend → Type 0
Chosen matches channel origin resources backend =
    (before : List Resource) × (resource : Resource) × (behind : List Resource) × (resources
      ≡ before ++ (resource ∷ behind))
    × All (λ (r : Resource). matches r.key channel ≡ false) before
    × (matches resource.key channel ≡ true)
    × (resource.backend ≡ backend)
    × (backend.is_websocket ≡ false)
    × (is_allow_origin matches origin backend.origins ≡ true)

find_backend-Chosen :
    (matches : Matcher) (channel origin : List ℕ) (resources : List Resource) (backend : Backend)
    → find_backend matches channel origin resources ≡ some backend
    → Chosen matches channel origin resources backend
unfolding find_backend
find_backend-Chosen matches channel origin [] backend h = cc
find_backend-Chosen matches channel origin (r ∷ rest) backend h =
    elim (Bool-cases (matches r.key channel)) [
      | inl hit ↦
          let same : r.backend ≡ backend = ground arith in
          ([], r, rest, refl, tt, hit, same, ground arith, ground arith)
      | inr miss ↦
          let (before, resource, behind, split, earlier, hit, same, plain, allowed) =
            find_backend-Chosen matches channel origin rest backend (ground arith) in
          (
            r ∷ before,
            resource,
            behind,
            ap (λ t. r ∷ t) split,
            (miss, earlier),
            hit,
            same,
            plain,
            allowed,
          )
    ]

find_backend-first :
    (matches : Matcher) (channel origin : List ℕ) (before : List Resource) (r : Resource)
    (behind : List Resource)
    → All (λ (r : Resource). matches r.key channel ≡ false) before
    → (matches r.key channel ≡ true)
    → r.backend.is_websocket ≡ false
    → is_allow_origin matches origin r.backend.origins ≡ true
    → find_backend matches channel origin (before ++ (r ∷ behind)) ≡ some r.backend
unfolding find_backend
find_backend-first matches channel origin [] r behind earlier hit plain allowed =
    rw (hit, plain, allowed) refl
find_backend-first matches channel origin (b ∷ before) r behind (miss, earlier) hit plain allowed =
    rw (miss, find_backend)
      (find_backend-first matches channel origin before r behind earlier hit plain allowed)

Chosen-find_backend :
    (matches : Matcher) (channel origin : List ℕ) (resources : List Resource) (backend : Backend)
    → Chosen matches channel origin resources backend
    → find_backend matches channel origin resources ≡ some backend
Chosen-find_backend matches channel origin resources backend
      (before, r, behind, split, earlier, hit, same, plain, allowed) =
    ap (find_backend matches channel origin) split
    ∙ find_backend-first matches channel origin before r behind earlier hit
        (ap (λ (b : Backend). b.is_websocket) same ∙ plain)
        (ap (λ (b : Backend). is_allow_origin matches origin b.origins) same ∙ allowed)
    ∙ ap some same

-- `getBackend` answers a backend exactly when there is a configuration, the channel is not empty,
-- and the backend is that of the first resource that the channel matches, is no websocket backend,
-- and allows the origin of the request; in every other case it answers none.
pub get_backend-Chosen :
    (matches : Matcher) (config : Option (List Resource)) (channel origin : List ℕ)
    (backend : Backend)
    → (get_backend matches config channel origin ≡ some backend) ↔ (
        (resources : List Resource) × (config ≡ some resources)
        × (is_empty channel ≡ false)
        × Chosen matches channel origin resources backend)
unfolding get_backend
get_backend-Chosen matches none channel origin backend = (λ h. cc, λ (rs, e, _, _). cc)
get_backend-Chosen matches (some resources) channel origin backend =
    elim (Bool-cases (is_empty channel)) [
      | inl unnamed ↦ rw unnamed (λ h. cc, λ (_, _, named, _). cc)
      | inr named ↦ rw named (
        λ h.
            (resources, refl, refl, find_backend-Chosen matches channel origin resources backend h),
        λ (rs, e, _, chosen).
            let same : rs ≡ resources = cc in
            Chosen-find_backend matches channel origin resources backend
              (subst (λ r. Chosen matches channel origin r backend) same chosen),
      )
    ]
