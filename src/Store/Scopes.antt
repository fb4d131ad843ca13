-- ===== src/Store/Scopes.antt =====
-- The scope of each identifier: what foreign keys and the isolation of scopes are stated by.
use higgsfield_memory_servic.Prelude.{
  ℕ, ◌<◌, ◌≤◌, false, ◌≡◌, refl, Option, none, some, List, [], ◌∷◌, ◌++◌, map, arith, ◌==◌, nat_eq,
  All,
}
use higgsfield_memory_servic.Dict.{Dict, lookup, NodupKeys}
use higgsfield_memory_servic.Store.{Scope, Turn, Memory, Entity}

abbrev pub Scopes : Type 0
Scopes = Dict ℕ Scope

abbrev pub turn_scopes : {F : Type 0} → List (Turn F) → Scopes
turn_scopes = map (λ t. (t.id, t.scope))

abbrev pub memory_scopes : {F : Type 0} → List (Memory F) → Scopes
memory_scopes = map (λ m. (m.id, m.scope))

abbrev pub entity_scopes : List Entity → Scopes
entity_scopes = map (λ e. (e.id, e.scope))

-- What the one knows the other knows too.
abbrev pub Extends : Scopes → Scopes → Type 0
Extends d e = (k : ℕ) (s : Scope) → lookup k d ≡ some s → lookup k e ≡ some s

-- The two identifiers exist, in the same scope.
pub record Linked (d e : Scopes) (a b : ℕ) : Type 0 where
  pub scope : Scope
  pub left : lookup a d ≡ some scope
  pub right : lookup b e ≡ some scope

pub Linked-mono :
    {d e d' e' : Scopes} (a b : ℕ) → Extends d d' → Extends e e' → Linked d e a b → Linked d' e' a b
Linked-mono a b p q l = record {
  scope = l.scope;
  left = p a l.scope l.left;
  right = q b l.scope l.right;
}

-- A reference that may be null: if it is not, its row exists, in the given scope.
abbrev pub RefersTo : Scopes → Option ℕ → Scope → Type 0
RefersTo d none s = Unit
RefersTo d (some k) s = lookup k d ≡ some s

pub RefersTo-mono :
    (d e : Scopes) (k : Option ℕ) (s : Scope) → Extends d e → RefersTo d k s → RefersTo e k s
RefersTo-mono d e none s p h = tt
RefersTo-mono d e (some k) s p h = p k s h

pub Extends-append : (d e : Scopes) → Extends d (d ++ e)
unfolding lookup
Extends-append [] e k s h = cc
Extends-append ((j, t) ∷ d) e k s h = ground (arith, Extends-append d e k s)

pub lookup-append_fresh :
    (d : Scopes) (k : ℕ) (s : Scope) → lookup k d ≡ none → lookup k (d ++ (k, s) ∷ []) ≡ some s
unfolding lookup
lookup-append_fresh [] k s h = ground arith
lookup-append_fresh ((j, t) ∷ d) k s h = ground (arith, lookup-append_fresh d k s)

-- All identifiers are below a number.
abbrev pub Below : ℕ → Scopes → Type 0
Below n = All (λ x. x.0 < n)

pub lookup-none_of_Below : (n k : ℕ) (d : Scopes) → Below n d → n ≤ k → lookup k d ≡ none
unfolding lookup
lookup-none_of_Below n k [] h le = refl
lookup-none_of_Below n k ((j, t) ∷ d) h le = ground (arith, lookup-none_of_Below n k d)

pub NodupKeys-append :
    (d : Scopes) (k : ℕ) (s : Scope)
    → NodupKeys d
    → lookup k d ≡ none
    → NodupKeys (d ++ (k, s) ∷ [])
unfolding lookup
NodupKeys-append [] k s u h = (refl, tt)
NodupKeys-append ((j, t) ∷ d) k s (fresh, u) h =
    (lookup-append_ne d (ground arith) fresh, NodupKeys-append d k s u (ground arith))
  where
    lookup-append_ne :
        (d : Scopes) → j == k ≡ false → lookup j d ≡ none → lookup j (d ++ (k, s) ∷ []) ≡ none
    lookup-append_ne [] ne h = ground arith
    lookup-append_ne ((i, _) ∷ d) ne h = ground (arith, lookup-append_ne d)

-- With no identifier twice, each entry is what a lookup finds.
pub All-lookup : (d : Scopes) → NodupKeys d → All (λ x. lookup x.0 d ≡ some x.1) d
unfolding lookup
All-lookup [] u = tt
All-lookup ((j, t) ∷ d) (fresh, u) = (ground arith, tail d (All-lookup d u))
  where
    tail :
        (l : Scopes)
        → All (λ x. lookup x.0 d ≡ some x.1) l
        → All (λ x. lookup x.0 ((j, t) ∷ d) ≡ some x.1) l
    tail [] h = tt
    tail (x ∷ l) (hx, h) = (ground arith, tail l h)
