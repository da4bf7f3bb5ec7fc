-- ===== src/Capture/Policy.antt =====
-- crates/woof-capture/src/policy.rs: the blacklist. Regular expressions, of any type X, and the
-- parsing of hosts and URLs are parameters. An IP address is a number.
pub mod Hosts
use woof.Prelude.{
  ℕ, Bool, true, false, not, ◌&&◌, ◌||◌, Option, none, some, List, [], ◌∷◌, ◌++◌, ◌==◌,
  if◌then◌else◌,
}
use woof.Prelude.Text.{Text, codes, is_empty, text_eq, trim}
use woof.Capture.Node.{to_ascii_lowercase, starts_with, contains_text, or_empty}
use woof.Capture.Pipeline.{RawCapture}

abbrev pub woof_bundle_id : Text
woof_bundle_id = codes "com.julius.woof"

pub data BlacklistKind : Type 0 where
  bundle_id bundle_prefix app_name window_title browser_host regex : BlacklistKind

pub record BlacklistRule : Type 0 where
  pub kind : BlacklistKind
  pub pattern : Text

-- `url::Host`.
pub data Host : Type 0 where
  domain : Text → Host
  ipv4 ipv6 : ℕ → Host

pub record CompiledRule (X : Type 0) : Type 0 where
  pub source : BlacklistRule
  pub regex : Option X
  pub browser_host : Option Host

pub record CapturePolicy (X : Type 0) : Type 0 where
  pub blacklist : List (CompiledRule X)

pub record CaptureFields : Type 0 where
  pub bundle_id : Option Text
  pub app_name : Text
  pub window_title : Option Text
  pub browser_url : Option Text

abbrev pub is_some_and {ℓ} : {A : Type ℓ} → Option A → (A → Bool) → Bool
is_some_and none test = false
is_some_and (some a) test = test a

abbrev and_then {ℓ} : {A B : Type ℓ} → Option A → (A → Option B) → Option B
and_then none next = none
and_then (some a) next = next a

-- `trim_end_matches('.')`.
unfoldable pub trim_end_dots : Text → Text
trim_end_dots [] = []
trim_end_dots (c ∷ s) =
    let rest = trim_end_dots s in if is_empty rest && c == b'.' then [] else c ∷ rest

-- `str::ends_with`, for a character.
unfoldable pub ends_with : Text → ℕ → Bool
ends_with [] c = false
ends_with (d ∷ []) c = d == c
ends_with (d ∷ (e ∷ s)) c = ends_with (e ∷ s) c

-- `str::strip_suffix`: the part before a suffix.
unfoldable pub strip_suffix : Text → Text → Option Text
strip_suffix [] p = if text_eq [] p then some [] else none
strip_suffix (c ∷ s) p =
    let rest = strip_suffix s p in
    if text_eq (c ∷ s) p
    then some []
    else elim rest [ none ↦ none | some before ↦ some (c ∷ before) ]

abbrev host_eq : Host → Host → Bool
host_eq (domain s) (domain t) = text_eq s t
host_eq (ipv4 a) (ipv4 b) = a == b
host_eq (ipv6 a) (ipv6 b) = a == b
host_eq _ _ = false

unfoldable pub hosts_match : Host → Host → Bool
unfolding strip_suffix ends_with
hosts_match (domain host) (domain pattern) =
    text_eq host pattern
    || is_some_and (strip_suffix host pattern) (λ before. ends_with before b'.')
hosts_match host pattern = host_eq host pattern

abbrev eq_ignore_ascii_case : Text → Text → Bool
eq_ignore_ascii_case s t = text_eq (to_ascii_lowercase s) (to_ascii_lowercase t)

abbrev is_bundle : Option Text → Text → Bool
is_bundle none t = false
is_bundle (some s) t = text_eq s t

module _ {X : Type 0} (compile_regex : Text → Option X) (is_match : X → Text → Bool)
    (parse_host url_host : Text → Option Host) where
  unfoldable pub canonical_rule_host : Text → Option Host
  unfolding trim_end_dots
  canonical_rule_host value =
      let value = trim_end_dots (trim value) in
      if is_empty value
      then none
      else if contains_text value (codes ":")
          && not (starts_with value (codes "[") && ends_with value b']')
      then parse_host (codes "[" ++ (value ++ codes "]"))
      else parse_host value

  -- `url_host` is the host of the URL that a text is parsed as.
  unfoldable pub canonical_url_host : Text → Option Host
  canonical_url_host value = elim (url_host (trim value)) [
    | none ↦ none
    | some (domain s) ↦ parse_host (trim_end_dots s)
    | some host ↦ some host
  ]

  unfoldable pub compile : BlacklistRule → CompiledRule X
  unfolding canonical_rule_host
  compile rule = record {
    source = rule;
    regex = elim rule.kind [ BlacklistKind.regex ↦ compile_regex rule.pattern | other ↦ none ];
    browser_host = elim rule.kind [
      | BlacklistKind.browser_host ↦ canonical_rule_host rule.pattern
      | other ↦ none
    ];
  }

  compile_all : List BlacklistRule → List (CompiledRule X)
  compile_all [] = []
  compile_all (rule ∷ rules) = compile rule ∷ compile_all rules

  unfoldable pub new : List BlacklistRule → CapturePolicy X
  unfolding compile_all
  new rules = record { blacklist = compile_all rules }

  unfoldable pub matches : CompiledRule X → CaptureFields → Bool
  unfolding canonical_url_host
  matches rule fields =
      let pattern = to_ascii_lowercase rule.source.pattern in
      elim rule.source.kind [
        | BlacklistKind.bundle_id ↦
            is_some_and fields.bundle_id (λ v. eq_ignore_ascii_case v rule.source.pattern)
        | BlacklistKind.bundle_prefix ↦
            is_some_and fields.bundle_id (λ v. starts_with (to_ascii_lowercase v) pattern)
        | BlacklistKind.app_name ↦ contains_text (to_ascii_lowercase fields.app_name) pattern
        | BlacklistKind.window_title ↦
            is_some_and fields.window_title (λ v. contains_text (to_ascii_lowercase v) pattern)
        | BlacklistKind.browser_host ↦
            is_some_and (and_then fields.browser_url canonical_url_host)
              (λ host. is_some_and rule.browser_host (λ p. hosts_match host p))
        | BlacklistKind.regex ↦ is_some_and rule.regex (λ x. is_match x (
            or_empty fields.bundle_id
            ++ (codes "\n"
                ++ (fields.app_name
                    ++ (codes "\n"
                        ++ (or_empty fields.window_title
                            ++ (codes "\n" ++ or_empty fields.browser_url)))))))
      ]

  any_matches : List (CompiledRule X) → CaptureFields → Bool
  unfolding matches
  any_matches [] fields = false
  any_matches (rule ∷ rules) fields = matches rule fields || any_matches rules fields

  unfoldable pub is_blacklisted_fields : CapturePolicy X → CaptureFields → Bool
  unfolding any_matches
  is_blacklisted_fields policy fields =
      is_bundle fields.bundle_id woof_bundle_id || any_matches policy.blacklist fields

  unfoldable pub is_blacklisted : CapturePolicy X → RawCapture → Bool
  unfolding is_blacklisted_fields
  is_blacklisted policy capture = is_blacklisted_fields policy (record {
    bundle_id = capture.bundle_id;
    app_name = capture.app_name;
    window_title = capture.window_title;
    browser_url = capture.browser_url;
  })
