-- ===== src/Config/Resolution.antt =====
-- Which command `resolve_kernel_command` of config.py finds, and how it fails.
use astraship.Base.{
  String, ◌≡◌, ◌≢◌, refl, ◌∙◌, sym, ap, subst, ◌↔◌, ◌⊎◌, inl, inr, Bool, true, false, not, none,
  some, List, [], ◌∷◌, All, arith, Bool-cases, Option-cases, every-All, All-every,
}
use astraship.Base.Text.{is_nonempty, is_blank}
use astraship.Errors.{Error, Result, ok, err, kernel_config, kernel_not_found, value_error}
use astraship.Config.{
  KernelConfig, Machine, command_variable, is_nonempty_list, is_command, or_invalid, split_command,
  from_variable, from_path, resolve_kernel_command,
}

-- Where a command may come from. A later source counts only where the ones before it are not set.
pub data Source (config : KernelConfig) (m : Machine) (command : List String) : Type 0 where
  explicit :
      config.command ≡ some command
      → command ≢ []
      → All (λ word. is_nonempty word ≡ true) command
      → Source config m command
  variable :
      (raw : String)
      → config.command ≡ none
      → m.environ command_variable ≡ some raw
      → is_blank raw ≡ false
      → m.split (not m.is_windows) raw ≡ ok command
      → command ≢ []
      → Source config m command
  on_path :
      (executable : String)
      → config.command ≡ none
      → m.environ command_variable ≡ none
      → m.which "felix-server" ≡ some executable
      → command ≡ executable ∷ []
      → Source config m command

is_nonempty_list_iff : (ss : List String) → (is_nonempty_list ss ≡ true) ↔ (ss ≢ [])
unfolding is_nonempty_list
is_nonempty_list_iff [] = (λ h. absurd (cc), λ h. absurd (h refl))
is_nonempty_list_iff (s ∷ ss) = (λ h e. cc, λ h. refl)

is_command-Source :
    (command : List String)
    → is_command command ≡ true
    → (command ≢ []) × All (λ word. is_nonempty word ≡ true) command
unfolding is_command
is_command-Source command h = elim (Bool-cases (is_nonempty_list command)) [
  | inr b ↦ absurd (ground (arith, h, b))
  | inl b ↦
      ((is_nonempty_list_iff command).0 b, every-All is_nonempty command (ground (arith, h, b)))
]

Source-is_command :
    (command : List String)
    → command ≢ []
    → All (λ word. is_nonempty word ≡ true) command
    → is_command command ≡ true
unfolding is_command
Source-is_command command n a =
    let b = (is_nonempty_list_iff command).1 n in
    let w = All-every is_nonempty command a in ground (arith, b, w)

split_command-ok :
    (r : Result (List String)) (command : List String)
    → split_command r ≡ ok command
    → (r ≡ ok command) × (command ≢ [])
unfolding split_command
split_command-ok (err e) command h = absurd (cc)
split_command-ok (ok words) command h = elim (Bool-cases (is_nonempty_list words)) [
  | inr b ↦ absurd (ground (arith, h, b))
  | inl b ↦
      let same : words ≡ command = ground (arith, h, b) in
      (ap ok same, λ e. (is_nonempty_list_iff words).0 b (same ∙ e))
]

ok-split_command :
    (r : Result (List String)) (command : List String)
    → r ≡ ok command
    → command ≢ []
    → split_command r ≡ ok command
unfolding split_command
ok-split_command (err e) command h n = absurd (cc)
ok-split_command (ok words) command h n =
    let same : words ≡ command = ground (arith, h) in
    let b : is_nonempty_list words ≡ true =
      (is_nonempty_list_iff words).1 (λ e. n (sym same ∙ e)) in
    ground (arith, b, same)

module _ (config : KernelConfig) (m : Machine) (command : List String) where
  sound : resolve_kernel_command config m ≡ ok command → Source config m command
  unfolding resolve_kernel_command from_variable from_path
  sound h = elim (Option-cases config.command) [
    | inr (words, c) ↦ elim (Bool-cases (is_command words)) [
      | inr b ↦ absurd (ground (arith, h, c, b))
      | inl b ↦
          let same : words ≡ command = ground (arith, h, c, b) in
          let (n, a) = is_command-Source words b in
          Source.explicit (c ∙ ap some same) (λ e. n (same ∙ e))
            (subst (All (λ word. is_nonempty word ≡ true)) same a)
    ]
    | inl c ↦ elim (Option-cases (m.environ command_variable)) [
      | inr (raw, v) ↦ elim (Bool-cases (is_blank raw)) [
        | inl b ↦ absurd (ground (arith, h, c, v, b))
        | inr b ↦
            let (s, n) =
              split_command-ok (m.split (not m.is_windows) raw) command
                (ground (arith, h, c, v, b)) in
            Source.variable raw c v b s n
      ]
      | inl v ↦ elim (Option-cases (m.which "felix-server")) [
        | inl w ↦ absurd (ground (arith, h, c, v, w))
        | inr (executable, w) ↦ Source.on_path executable c v w (ground (arith, h, c, v, w))
      ]
    ]
  ]

  complete : Source config m command → resolve_kernel_command config m ≡ ok command
  unfolding resolve_kernel_command from_variable from_path
  complete (explicit c n a) = ground (arith, c, Source-is_command command n a)
  complete (variable raw c v b s n) =
      ground (arith, c, v, b, ok-split_command (m.split (not m.is_windows) raw) command s n)
  complete (on_path executable c v w e) = ground (arith, c, v, w, e)

  -- The command that is resolved is the explicit one, when the configuration has one; without it the
  -- one that the environment variable is split into, when that is set; without both the executable
  -- that is found on the path. Nothing else is resolved, each of these is, and only a source that
  -- is not set gives way to the next: the command is not empty, and an explicit one has no empty word.
  pub resolve_kernel_command_iff :
      (resolve_kernel_command config m ≡ ok command) ↔ Source config m command
  resolve_kernel_command_iff = (sound, complete)

split_command-error :
    (r : Result (List String)) (e : Error)
    → ((x : Error) → r ≡ err x → x.class ≡ value_error)
    → split_command r ≡ err e
    → e.class ≡ kernel_config
unfolding split_command or_invalid
split_command-error (ok words) e known h = ground (arith, h)
split_command-error (err x) e known h =
    let c = known x refl in
    let same : or_invalid x ≡ e = ground (arith, h) in
    let class : (or_invalid x).class ≡ kernel_config = ground (arith, c) in
    subst (λ (y : Error). y.class ≡ kernel_config) {x = or_invalid x} {y = e} same class

-- No source is set.
pub record IsUnset (config : KernelConfig) (m : Machine) : Type 0 where
  pub command : config.command ≡ none
  pub variable : m.environ command_variable ≡ none
  pub path : m.which "felix-server" ≡ none

-- When the resolution fails, and the splitting of a command line raises nothing but ValueError, the
-- error is a KernelConfigError, or it is a KernelNotFoundError and none of the three sources is set.
pub resolve_kernel_command-errors :
    (config : KernelConfig) (m : Machine) (e : Error)
    → ((posix : Bool) (s : String) (x : Error) → m.split posix s ≡ err x → x.class ≡ value_error)
    → resolve_kernel_command config m ≡ err e
    → (e.class ≡ kernel_config) ⊎ ((e.class ≡ kernel_not_found) × IsUnset config m)
unfolding resolve_kernel_command from_variable from_path
resolve_kernel_command-errors config m e known h = elim (Option-cases config.command) [
  | inr (words, c) ↦ elim (Bool-cases (is_command words)) [
    | inl b ↦ absurd (ground (arith, h, c, b))
    | inr b ↦ inl (ground (arith, h, c, b))
  ]
  | inl c ↦ elim (Option-cases (m.environ command_variable)) [
    | inr (raw, v) ↦ elim (Bool-cases (is_blank raw)) [
      | inl b ↦ inl (ground (arith, h, c, v, b))
      | inr b ↦ inl (
          split_command-error (m.split (not m.is_windows) raw) e (known (not m.is_windows) raw)
            (ground (arith, h, c, v, b)))
    ]
    | inl v ↦ elim (Option-cases (m.which "felix-server")) [
      | inr (executable, w) ↦ absurd (ground (arith, h, c, v, w))
      | inl w ↦ inr (ground (arith, h, c, v, w), record { command = c; variable = v; path = w })
    ]
  ]
]
