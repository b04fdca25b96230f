-- ===== src/Retry/Rules.antt =====
-- Which failures are retried, as the providers document them.
use Prim.Native.String.{String, [], ◌∷◌}
use Prim.Native.Char.{Char}
use text.Mathlib.Text.{starts_with, ◌==◌ as str_eq}
use text.Mathlib.TextBridge.{IsPrefix}
use text.Mathlib.TextEquality.{eq_iff, starts_with_iff}
use mathlib.Core.Path.{subst}
use world_tree.Prelude.{
  ℕ, ◌≡◌, refl, sym, ap, ◌↔◌, ◌⊎◌, inl, inr, Bool, true, false, ◌||◌, ◌&&◌, Bool-cases, Option,
  none, some, ==_iff, eq_of_==, if◌then◌else◌,
}
use world_tree.Prelude.Int.{ℤ, pos, negsuc}
use world_tree.Retry.{
  JsonRpcError, HttpClientError, reqwest_error, json_rpc_error, serde_json, contains, int_eq,
  should_retry_json_rpc_error, should_retry,
}

-- The pattern stands somewhere in the text.
pub data Within (pattern : String) : String → Type 0 where
  at_start : {s : String} → IsPrefix pattern s → Within pattern s
  later : {c : Char} {s : String} → Within pattern s → Within pattern (c ∷ s)

or_true : (a b : Bool) → (a || b) ≡ true → (a ≡ true) ⊎ (b ≡ true)
or_true true b h = inl refl
or_true false b h = inr h

contains-Within : (s pattern : String) → contains s pattern ≡ true → Within pattern s
unfolding contains
contains-Within [] p h = at_start ((starts_with_iff [] p).0 h)
contains-Within (c ∷ s) p h = elim (or_true (starts_with (c ∷ s) p) (contains s p) h) [
  | inl start ↦ at_start ((starts_with_iff (c ∷ s) p).0 start)
  | inr rest ↦ later (contains-Within s p rest)
]

Within-contains : (s pattern : String) → Within pattern s → contains s pattern ≡ true
unfolding contains
Within-contains [] p (at_start h) = (starts_with_iff [] p).1 h
Within-contains (c ∷ s) p (at_start h) = rw ((starts_with_iff (c ∷ s) p).1 h) refl
Within-contains (c ∷ s) p (later w) = elim (Bool-cases (starts_with (c ∷ s) p)) [
  | inl e ↦ rw e refl
  | inr e ↦ rw (e, Within-contains s p w) refl
]

int_eq_iff : (a b : ℤ) → (int_eq a b ≡ true) ↔ (a ≡ b)
int_eq_iff (pos a) (pos b) = ((λ h. ap pos (eq_of_== a b h)), (λ e. (==_iff a b).1 (inj e)))
  where
    inj : pos a ≡ pos b → a ≡ b
    inj e = cc
int_eq_iff (negsuc a) (negsuc b) =
    ((λ h. ap negsuc (eq_of_== a b h)), (λ e. (==_iff a b).1 (inj e)))
  where
    inj : negsuc a ≡ negsuc b → a ≡ b
    inj e = cc
int_eq_iff (pos a) (negsuc b) = ((λ h. absurd cc), (λ e. absurd cc))
int_eq_iff (negsuc a) (pos b) = ((λ h. absurd cc), (λ e. absurd cc))

-- A test that returns true, before the others.
first_test : (a b : Bool) → (if a then true else b) ≡ true → (a ≡ true) ⊎ (b ≡ true)
first_test true b h = inl refl
first_test false b h = inr h

passes_first : (a b : Bool) → a ≡ true → (if a then true else b) ≡ true
passes_first a b h = rw h refl

passes_later : (a b : Bool) → b ≡ true → (if a then true else b) ≡ true
passes_later true b h = refl
passes_later false b h = h

both_true : (a b : Bool) → (a && b) ≡ true → (a ≡ true) × (b ≡ true)
both_true true b h = (refl, h)
both_true false b h = absurd cc

module _ {Json : Type 0} where
  -- The errors of a provider that has had too many requests, or is out of balance.
  pub data IsLimited (e : JsonRpcError Json) : Type 0 where
    too_many : e.code ≡ pos 429 → IsLimited e
    internal : e.code ≡ negsuc 32602 → IsLimited e
    project_limit : e.code ≡ negsuc 32004 → IsLimited e
    address_limit : e.code ≡ negsuc 32015 → Within "rate limit" e.message → IsLimited e
    header_missing : e.message ≡ "header not found" → IsLimited e
    daily_limit : e.message ≡ "daily request count exceeded, request rate limited" → IsLimited e

  retried-IsLimited : (e : JsonRpcError Json) → should_retry_json_rpc_error e ≡ true → IsLimited e
  unfolding should_retry_json_rpc_error
  retried-IsLimited e h = elim (first_test (int_eq e.code (pos 429)) _ h) [
    | inl t ↦ too_many ((int_eq_iff e.code (pos 429)).0 t)
    | inr h ↦ elim (first_test (int_eq e.code (negsuc 32602)) _ h) [
      | inl t ↦ internal ((int_eq_iff e.code (negsuc 32602)).0 t)
      | inr h ↦ elim (first_test (int_eq e.code (negsuc 32004)) _ h) [
        | inl t ↦ project_limit ((int_eq_iff e.code (negsuc 32004)).0 t)
        | inr h ↦
            elim (first_test (int_eq e.code (negsuc 32015) && contains e.message "rate limit") _
              h) [
                | inl t ↦
                    let (code, message) =
                      both_true (int_eq e.code (negsuc 32015)) (contains e.message "rate limit")
                        t in
                    address_limit ((int_eq_iff e.code (negsuc 32015)).0 code)
                      (contains-Within e.message "rate limit" message)
                | inr h ↦ elim (first_test (str_eq e.message "header not found") _ h) [
                  | inl t ↦ header_missing ((eq_iff e.message "header not found").0 t)
                  | inr t ↦
                      daily_limit (
                        (eq_iff e.message "daily request count exceeded, request rate limited").0 t)
                ]
              ]
      ]
    ]
  ]

  IsLimited-retried : (e : JsonRpcError Json) → IsLimited e → should_retry_json_rpc_error e ≡ true
  unfolding should_retry_json_rpc_error
  IsLimited-retried e (too_many h) = rw h refl
  IsLimited-retried e (internal h) = rw h refl
  IsLimited-retried e (project_limit h) = rw h refl
  IsLimited-retried e (address_limit h w) = rw (h, Within-contains e.message "rate limit" w) refl
  IsLimited-retried e (header_missing h) = passes_later (int_eq e.code (pos 429)) _ (
      passes_later (int_eq e.code (negsuc 32602)) _ (
        passes_later (int_eq e.code (negsuc 32004)) _ (
          passes_later (int_eq e.code (negsuc 32015) && contains e.message "rate limit") _ (
            passes_first (str_eq e.message "header not found") _
              ((eq_iff e.message "header not found").1 h)))))
  IsLimited-retried e (daily_limit h) = passes_later (int_eq e.code (pos 429)) _ (
      passes_later (int_eq e.code (negsuc 32602)) _ (
        passes_later (int_eq e.code (negsuc 32004)) _ (
          passes_later (int_eq e.code (negsuc 32015) && contains e.message "rate limit") _ (
            passes_later (str_eq e.message "header not found") _
              ((eq_iff e.message "daily request count exceeded, request rate limited").1 h)))))

  -- What a response that does not parse may hold.
  reply_iff :
      (r : Option (JsonRpcError Json))
      → (elim r as (λ _. Bool) [ none ↦ false | some e ↦ should_retry_json_rpc_error e ] ≡ true)
        ↔ ((e : JsonRpcError Json) × (r ≡ some e) × IsLimited e)
  reply_iff none = ((λ h. absurd cc), (λ (e, h, l). absurd cc))
  reply_iff (some e) = (
    (λ h. (e, refl, retried-IsLimited e h)),
    (λ (e', h, l). IsLimited-retried e (subst IsLimited (sym (inj h)) l)),
  )
    where
      inj : {a b : JsonRpcError Json} → some a ≡ some b → a ≡ b
      inj p = cc

  -- A failure of the transport is due to too many requests by its status 429, an error of the
  -- provider and an unreadable response that holds such an error by the limits above.
  pub IsDueToLimit : (String → Option (JsonRpcError Json)) → HttpClientError Json → Type 0
  IsDueToLimit parse (reqwest_error status) = status ≡ some 429
  IsDueToLimit parse (json_rpc_error e) = IsLimited e
  IsDueToLimit parse (serde_json body) =
      (e : JsonRpcError Json) × (parse body ≡ some e) × IsLimited e

  -- Exactly these failures are retried: a failure of the transport with status 429, and an error of
  -- the provider, also one read from a response that does not parse, with the code 429, -32603 or
  -- -32005, with the code -32016 and "rate limit" somewhere in its message, or with the message of a
  -- missing header or of the daily limit.
  pub should_retry_iff :
      (parse : String → Option (JsonRpcError Json)) (error : HttpClientError Json)
      → (should_retry parse error ≡ true) ↔ IsDueToLimit parse error
  unfolding should_retry IsDueToLimit
  should_retry_iff parse (reqwest_error none) = ((λ h. absurd cc), (λ h. absurd cc))
  should_retry_iff parse (reqwest_error (some code)) =
      ((λ h. ap some (eq_of_== code 429 h)), (λ h. (==_iff code 429).1 (inj h)))
    where
      inj : {a b : ℕ} → some a ≡ some b → a ≡ b
      inj e = cc
  should_retry_iff parse (json_rpc_error e) = (retried-IsLimited e, IsLimited-retried e)
  should_retry_iff parse (serde_json body) = reply_iff (parse body)
