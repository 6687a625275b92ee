-- ===== src/Gateway/Signature.antt =====
-- What `verify_github_signature` and `parse_merge_event` of webhook.rs accept, and how they fail.
use wave_flow.Common.{
  refl, ◌++◌, ◌≡◌, not, some, arith, length, ◌∷◌, ==_refl, [], ◌==◌, ◌≢◌, ◌||◌, false, ◌⊎◌, none,
  true, Bool-cases, Option-cases, inl, inr, ==_iff, sym, ap, ◌∙◌,
}
use wave_flow.Gateway.Webhook.{
  Primitives, strip_prefix, Bytes, verify_github_signature, signature_prefix, parse_merge_event,
}
use wave_flow.Common.Text.{Text, codes, same, same_iff}
use wave_flow.Shared.Error.{
  WaveFlowResult, ok, err, unauthorized, message, webhook, Message, validation,
}
use wave_flow.Shared.Types.{GitHubPullRequestEvent}

strip_prefix-append : (p s : Text) → strip_prefix p (p ++ s) ≡ some s
unfolding strip_prefix
strip_prefix-append [] s = refl
strip_prefix-append (c ∷ p) s = rw (==_refl c) (strip_prefix-append p s)

strip_prefix_sound : (p s r : Text) → strip_prefix p s ≡ some r → s ≡ p ++ r
unfolding strip_prefix
strip_prefix_sound [] s r h = ground arith
strip_prefix_sound (c ∷ p) [] r h = absurd (ground arith)
strip_prefix_sound (c ∷ p) (d ∷ s) r h = ground (arith, strip_prefix_sound p s r)

-- How the check of a signature ends.
pub data Verdict (k : Primitives) (secret body : Bytes) (header : Text)
    (r : WaveFlowResult (Unit {0})) : Type 0 where
  genuine :
      (hex : Text) (mac : Bytes → Bytes)
      → header ≡ signature_prefix ++ hex
      → k.mac secret ≡ some mac
      → k.decode hex ≡ some (mac body)
      → r ≡ ok tt
      → Verdict k secret body header r
  forged :
      (hex : Text) (provided : Bytes) (mac : Bytes → Bytes)
      → header ≡ signature_prefix ++ hex
      → k.mac secret ≡ some mac
      → k.decode hex ≡ some provided
      → provided ≢ mac body
      → r ≡ err (unauthorized (message "invalid webhook signature"))
      → Verdict k secret body header r
  refused_secret :
      k.mac secret ≡ none
      → r ≡ err (webhook (message "invalid webhook secret"))
      → Verdict k secret body header r
  not_hex :
      (hex : Text)
      → header ≡ signature_prefix ++ hex
      → k.decode hex ≡ none
      → r ≡ err (webhook (message "invalid signature hex"))
      → Verdict k secret body header r
  unprefixed :
      ((hex : Text) → header ≢ signature_prefix ++ hex)
      → r ≡ err (webhook (message "missing sha256 prefix"))
      → Verdict k secret body header r

module _ (k : Primitives) (secret body : Bytes) where
  -- A digest is accepted exactly where it is the expected one.
  compare_digest :
      (provided expected : Bytes)
      → ((provided ≡ expected)
          × ((not (length provided == length expected) || not (k.ct_eq provided expected)) ≡ false))
        ⊎ ((provided ≢ expected)
            × ((not (length provided == length expected) || not (k.ct_eq provided expected))
                ≡ true))
  compare_digest provided expected = elim (Bool-cases (length provided == length expected)) [
    | inr e ↦
        let n = (==_iff (length provided) (length expected)).1 in
        inr ((λ p. absurd (let q = n (ap length p) in ground arith)), rw e refl)
    | inl e ↦
        let law =
          k.ct_eq_iff provided expected ((==_iff (length provided) (length expected)).0 e) in
        elim (Bool-cases (k.ct_eq provided expected)) [
          | inl c ↦ inl (law.0 c, rw (e, c) refl)
          | inr c ↦ inr ((λ p. absurd (let q = law.1 p in ground arith)), rw (e, c) refl)
        ]
  ]

  -- A signature is accepted where its header is the prefix and a text that decodes to the HMAC of the
  -- body under the secret, and refused as unauthorized where the text decodes to other bytes. A
  -- header without the prefix, a text that does not decode and a refused secret are webhook errors.
  pub verify-Verdict :
      (header : Text) → Verdict k secret body header (verify_github_signature k secret body header)
  unfolding verify_github_signature
  verify-Verdict header = elim (Option-cases (strip_prefix signature_prefix header)) [
    | inl e ↦
        unprefixed
          (λ hex p. absurd (
            let q : none ≡ some hex =
              sym e
              ∙ ap (strip_prefix signature_prefix) p
              ∙ strip_prefix-append signature_prefix hex in
            ground arith))
          (rw e refl)
    | inr (hex, e) ↦
        let prefixed = strip_prefix_sound signature_prefix header hex e in
        elim (Option-cases (k.decode hex)) [
          | inl d ↦ not_hex hex prefixed d (rw (e, d) refl)
          | inr (provided, d) ↦ elim (Option-cases (k.mac secret)) [
            | inl m ↦ refused_secret m (rw (e, d, m) refl)
            | inr (mac, m) ↦ elim (compare_digest provided (mac body)) [
              | inl (same, c) ↦
                  genuine hex mac prefixed m (d ∙ ap (λ b. some b) same) (rw (e, d, m, c) refl)
              | inr (differs, c) ↦
                  forged hex provided mac prefixed m d differs (rw (e, d, m, c) refl)
            ]
          ]
        ]
  ]

-- A pull request that was closed by merging it to the default branch.
pub record IsDefaultMerge (e : GitHubPullRequestEvent) : Type 0 where
  pub closed : e.action ≡ codes "closed"
  pub merged : e.pull_request.merged ≡ true
  pub default_branch : e.pull_request.base.ref_name ≡ e.repository.default_branch

-- A merge to the default branch gives an attestation of one point for its author, and every other event
-- a validation error.
pub parse_merge_event_lem :
    (e : GitHubPullRequestEvent)
    → (IsDefaultMerge e
        × (parse_merge_event e
            ≡ ok (record {
              github_repo = e.repository.full_name;
              github_username = e.pull_request.user.login;
              pr_number = e.number;
              points = 1;
            })))
      ⊎ ((IsDefaultMerge e → ⊥) × (m : Message) × (parse_merge_event e ≡ err (validation m)))
unfolding parse_merge_event
parse_merge_event_lem e = elim (Bool-cases (same e.action (codes "closed"))) [
  | inr c ↦ inr (
    (λ h. absurd (let q = (same_iff e.action (codes "closed")).1 h.closed in ground arith)),
    message "ignored non-closed action",
    rw c refl,
  )
  | inl c ↦ elim (Bool-cases e.pull_request.merged) [
    | inr m ↦
        inr (
          (λ h. absurd (let q = h.merged in ground arith)),
          message "PR not merged",
          rw (c, m) refl,
        )
    | inl m ↦
        let law = same_iff e.pull_request.base.ref_name e.repository.default_branch in
        elim (Bool-cases (same e.pull_request.base.ref_name e.repository.default_branch)) [
          | inr b ↦ inr (
            (λ h. absurd (let q = law.1 h.default_branch in ground arith)),
            message "PR not merged to default branch",
            rw (c, m, b) refl,
          )
          | inl b ↦ inl (
            record {
              closed = (same_iff e.action (codes "closed")).0 c;
              merged = m;
              default_branch = law.0 b;
            },
            rw (c, m, b) refl,
          )
        ]
  ]
]
