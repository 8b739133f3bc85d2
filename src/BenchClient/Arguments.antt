-- ===== src/BenchClient/Arguments.antt =====
-- What the options of the benchmark client are.
use low_latency_trading_gate.Base.{
  List, [], ◌∷◌, Option, none, some, Bool, true, false, ◌≡◌, refl, sym, ap, ◌∙◌, if◌then◌else◌,
  Bool-cases, inl, inr,
}
use low_latency_trading_gate.Base.Integers.{ℤ, is_zero}
use low_latency_trading_gate.BenchClient.{
  Text, Options, default_options, host_flag, port_flag, messages_flag, warmup_flag, set_option,
  parse_pairs, parse_options,
}

pub data Flag : Type 0 where
  host port messages warmup : Flag

abbrev same_flag : Flag → Flag → Bool
same_flag host host = true
same_flag port port = true
same_flag messages messages = true
same_flag warmup warmup = true
same_flag _ _ = false

-- An argument with the next, as long as there is a next.
unfoldable pub pairs : List Text → List (Text × Text)
pairs [] = []
pairs (flag ∷ []) = []
pairs (flag ∷ value ∷ argv) = (flag, value) ∷ pairs argv

module _ (strcmp : Text → Text → ℤ) (atoi : Text → ℤ) where
  unfoldable pub flag_of : Text → Option Flag
  flag_of text =
      if is_zero (strcmp text host_flag)
      then some host
      else if is_zero (strcmp text port_flag)
      then some port
      else if is_zero (strcmp text messages_flag)
      then some messages
      else if is_zero (strcmp text warmup_flag)
      then some warmup
      else none

  abbrev pub is_flag : Flag → Option Flag → Bool
  is_flag flag none = false
  is_flag flag (some other) = same_flag flag other

  abbrev pub or_else : {A : Type 0} → Option A → Option A → Option A
  or_else (some a) b = some a
  or_else none b = b

  -- The value behind the last of these flags.
  unfoldable pub last_value : Flag → List (Text × Text) → Option Text
  last_value flag [] = none
  last_value flag ((text, value) ∷ rest) =
      or_else (last_value flag rest) (if is_flag flag (flag_of text) then some value else none)

  abbrev pub given : {A : Type 0} → A → (Text → A) → Option Text → A
  given d read none = d
  given d read (some text) = read text

  -- The options of the pairs, over those before.
  abbrev pub options_of : Options → List (Text × Text) → Options
  options_of opts ps = record {
    host = given opts.host (λ text. text) (last_value host ps);
    port = given opts.port atoi (last_value port ps);
    messages = given opts.messages atoi (last_value messages ps);
    warmup = given opts.warmup atoi (last_value warmup ps);
  }

  given-some :
      {A : Type 0} (d : A) (read : Text → A) (o : Option Text) (value : Text)
      → given d read (or_else o (some value)) ≡ given (read value) read o
  given-some d read none value = refl
  given-some d read (some text) value = refl

  given-none :
      {A : Type 0} (d : A) (read : Text → A) (o : Option Text)
      → given d read (or_else o none) ≡ given d read o
  given-none d read none = refl
  given-none d read (some text) = refl

  -- An option set by its flag.
  abbrev put_flag : Option Flag → Text → Options → Options
  put_flag none value opts = opts
  put_flag (some host) value opts = record opts { host = value }
  put_flag (some port) value opts = record opts { port = atoi value }
  put_flag (some messages) value opts = record opts { messages = atoi value }
  put_flag (some warmup) value opts = record opts { warmup = atoi value }

  set_option-eq-put_flag :
      (flag value : Text) (opts : Options)
      → set_option strcmp atoi flag value opts ≡ put_flag (flag_of flag) value opts
  unfolding set_option flag_of
  set_option-eq-put_flag flag value opts = elim (Bool-cases (is_zero (strcmp flag host_flag))) [
    | inl h ↦ rw h
    | inr h ↦ elim (Bool-cases (is_zero (strcmp flag port_flag))) [
      | inl p ↦ rw (h, p)
      | inr p ↦ elim (Bool-cases (is_zero (strcmp flag messages_flag))) [
        | inl m ↦ rw (h, p, m)
        | inr m ↦ elim (Bool-cases (is_zero (strcmp flag warmup_flag))) [
          | inl w ↦ rw (h, p, m, w)
          | inr w ↦ rw (h, p, m, w)
        ]
      ]
    ]
  ]

  -- The first pair, over the values of those behind it.
  abbrev value_at : Flag → Option Flag → Text → List (Text × Text) → Option Text
  value_at flag f value ps =
      or_else (last_value flag ps) (if is_flag flag f then some value else none)

  abbrev options_at : Option Flag → Text → Options → List (Text × Text) → Options
  options_at f value opts ps = record {
    host = given opts.host (λ text. text) (value_at host f value ps);
    port = given opts.port atoi (value_at port f value ps);
    messages = given opts.messages atoi (value_at messages f value ps);
    warmup = given opts.warmup atoi (value_at warmup f value ps);
  }

  options_at-put_flag :
      (f : Option Flag) (value : Text) (opts : Options) (ps : List (Text × Text))
      → options_at f value opts ps ≡ options_of (put_flag f value opts) ps
  options_at-put_flag none value opts ps = rw (
    given-none opts.host (λ text. text) (last_value host ps),
    given-none opts.port atoi (last_value port ps),
    given-none opts.messages atoi (last_value messages ps),
    given-none opts.warmup atoi (last_value warmup ps),
  )
  options_at-put_flag (some host) value opts ps = rw (
    given-some opts.host (λ text. text) (last_value host ps) value,
    given-none opts.port atoi (last_value port ps),
    given-none opts.messages atoi (last_value messages ps),
    given-none opts.warmup atoi (last_value warmup ps),
  )
  options_at-put_flag (some port) value opts ps = rw (
    given-none opts.host (λ text. text) (last_value host ps),
    given-some opts.port atoi (last_value port ps) value,
    given-none opts.messages atoi (last_value messages ps),
    given-none opts.warmup atoi (last_value warmup ps),
  )
  options_at-put_flag (some messages) value opts ps = rw (
    given-none opts.host (λ text. text) (last_value host ps),
    given-none opts.port atoi (last_value port ps),
    given-some opts.messages atoi (last_value messages ps) value,
    given-none opts.warmup atoi (last_value warmup ps),
  )
  options_at-put_flag (some warmup) value opts ps = rw (
    given-none opts.host (λ text. text) (last_value host ps),
    given-none opts.port atoi (last_value port ps),
    given-none opts.messages atoi (last_value messages ps),
    given-some opts.warmup atoi (last_value warmup ps) value,
  )

  parse_pairs-eq :
      (opts : Options) (argv : List Text)
      → parse_pairs strcmp atoi opts argv ≡ options_of opts (pairs argv)
  unfolding parse_pairs pairs last_value
  parse_pairs-eq opts [] = refl
  parse_pairs-eq opts (flag ∷ []) = refl
  parse_pairs-eq opts (flag ∷ value ∷ argv) =
      parse_pairs-eq (set_option strcmp atoi flag value opts) argv
      ∙ ap (λ (o : Options). options_of o (pairs argv)) (set_option-eq-put_flag flag value opts)
      ∙ sym (options_at-put_flag (flag_of flag) value opts (pairs argv))

  -- Behind the name of the program, `parse_options` takes the arguments two at a time, and a last
  -- one alone is passed over: an option is the value behind the last flag of its name, read by
  -- `atoi` where it is a number, and its default where there is no such flag. Whatever `strcmp` and
  -- `atoi` return, a text is the first of the four flags that `strcmp` gives 0 for.
  pub parse_options-eq :
      (name : Text) (argv : List Text)
      → parse_options strcmp atoi (name ∷ argv) ≡ options_of default_options (pairs argv)
  unfolding parse_options
  parse_options-eq name argv = parse_pairs-eq default_options argv
