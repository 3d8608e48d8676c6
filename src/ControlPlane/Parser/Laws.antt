-- ===== src/ControlPlane/Parser/Laws.antt =====
-- The two syntaxes of new-cluster.
use faultlab.Prelude.{
  ◌≡◌, ◌≢◌, ◌⊎◌, inl, inr, refl, String, true, false, Option, [], ◌∷◌, arith, eq_iff, Bool-cases,
  starts_with_char,
}
use mathlib.Core.Path.{subst}
use faultlab.ControlPlane.Parser.{
  parse_words, is_protocol_flag, new_cluster_options, new_cluster, commands,
}

-- The old position of the protocol and the option name the same protocol.
positional_options :
    (flag p : String)
    → is_protocol_flag flag ≡ true
    → is_protocol_flag p ≡ false
    → starts_with_char b'-' p ≡ false
    → new_cluster_options true "gossip" (p ∷ []) ≡ new_cluster_options true "gossip" (flag ∷ p ∷ [])
unfolding new_cluster_options
positional_options flag p f g h = rw (new_cluster_options, f, g, h) refl

flag_cases :
    (q : String) → is_protocol_flag q ≡ true → (q ≡ "--protocol") ⊎ (q ≡ "-protocol") ⊎ (q ≡ "-p")
unfolding is_protocol_flag
flag_cases q e = ground (arith, eq_iff q "--protocol", eq_iff q "-protocol", eq_iff q "-p")

dash_first : (p : String) → starts_with_char b'-' p ≡ false → is_protocol_flag p ≡ false
unfolding starts_with_char
dash_first p h = elim (Bool-cases (is_protocol_flag p)) [
  | inl e ↦ elim (flag_cases p e) [
    | inl q ↦ absurd (no (subst (λ s. starts_with_char b'-' s ≡ false) q h))
    | inr (inl q) ↦ absurd (no (subst (λ s. starts_with_char b'-' s ≡ false) q h))
    | inr (inr q) ↦ absurd (no (subst (λ s. starts_with_char b'-' s ≡ false) q h))
  ]
  | inr e ↦ e
]
  where
    no : true ≢ false
    no e = absurd (cc)

module _ {Float : Type 0} (zero_rate : Float) (parse_float : String → Option Float) where
  -- new-cluster reads a protocol right after the cluster's id as it reads one after the option, in
  -- each of the option's spellings, if the protocol's name does not start with a dash.
  pub new_cluster-positional :
      (c p flag : String)
      → starts_with_char b'-' p ≡ false
      → is_protocol_flag flag ≡ true
      → parse_words zero_rate parse_float ("new-cluster" ∷ c ∷ p ∷ [])
        ≡ parse_words zero_rate parse_float ("new-cluster" ∷ c ∷ flag ∷ p ∷ [])
  unfolding parse_words commands new_cluster
  new_cluster-positional c p flag h f =
      rw (new_cluster, positional_options flag p f (dash_first p h) h) refl
