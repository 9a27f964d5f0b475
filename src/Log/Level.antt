-- ===== src/Log/Level.antt =====
-- common/utility.h: the severities and their names in the configuration.
use Prim.Native.String.{String}
use text.Mathlib.Text.{◌==◌}
use text.Mathlib.TextEquality.{eq_iff}
use lseb.Prelude.{
  ℕ, ◌≡◌, ◌≢◌, refl, false, Bool-cases, Result, ok, err, thrown, Exception, if◌then◌else◌, ◌⊎◌, inl,
  inr,
}

-- Boost's levels, in their order.
pub data Severity : Type 0 where
  trace debug info warning error fatal : Severity

abbrev pub rank : Severity → ℕ
rank trace = 0
rank debug = 1
rank info = 2
rank warning = 3
rank error = 4
rank fatal = 5

unfoldable pub severity_from_string : String → Result Severity
severity_from_string str =
    if str == "TRACE"
    then ok trace
    else if str == "DEBUG"
    then ok debug
    else if str == "INFO"
    then ok info
    else if str == "WARNING"
    then ok warning
    else if str == "ERROR"
    then ok error
    else if str == "FATAL"
    then ok fatal
    else err (thrown Exception.unknown_level)

-- The name of a level.
abbrev pub name : Severity → String
name trace = "TRACE"
name debug = "DEBUG"
name info = "INFO"
name warning = "WARNING"
name error = "ERROR"
name fatal = "FATAL"

Text-cases : (s t : String) → (s ≡ t) ⊎ ((s ≢ t) × ((s == t) ≡ false))
Text-cases s t = elim (Bool-cases (s == t)) [
  | inl e ↦ inl ((eq_iff s t).0 e)
  | inr n ↦ inr (λ e. cc (n, (eq_iff s t).1 e), n)
]

-- Each level is read back from its name, and a text that is no level's name throws the exception for
-- an unknown level.
pub severity_from_string-name :
    (str : String)
    → ((level : Severity) × (str ≡ name level) × (severity_from_string str ≡ ok level))
      ⊎ ((¬ ((level : Severity) × (str ≡ name level)))
          × (severity_from_string str ≡ err (thrown Exception.unknown_level)))
unfolding severity_from_string
severity_from_string-name str = elim (Text-cases str "TRACE") [
  | inl e ↦ inl (trace, e, rw e refl)
  | inr (n0, b0) ↦ elim (Text-cases str "DEBUG") [
    | inl e ↦ inl (debug, e, rw e refl)
    | inr (n1, b1) ↦ elim (Text-cases str "INFO") [
      | inl e ↦ inl (info, e, rw e refl)
      | inr (n2, b2) ↦ elim (Text-cases str "WARNING") [
        | inl e ↦ inl (warning, e, rw e refl)
        | inr (n3, b3) ↦ elim (Text-cases str "ERROR") [
          | inl e ↦ inl (error, e, rw e refl)
          | inr (n4, b4) ↦ elim (Text-cases str "FATAL") [
            | inl e ↦ inl (fatal, e, rw e refl)
            | inr (n5, b5) ↦ inr (unnamed n0 n1 n2 n3 n4 n5, rw (b0, b1, b2, b3, b4, b5))
          ]
        ]
      ]
    ]
  ]
]
  where
    unnamed :
        str ≢ "TRACE"
        → str ≢ "DEBUG"
        → str ≢ "INFO"
        → str ≢ "WARNING"
        → str ≢ "ERROR"
        → str ≢ "FATAL"
        → ¬ ((level : Severity) × (str ≡ name level))
    unnamed n0 n1 n2 n3 n4 n5 (trace, e) = n0 e
    unnamed n0 n1 n2 n3 n4 n5 (debug, e) = n1 e
    unnamed n0 n1 n2 n3 n4 n5 (info, e) = n2 e
    unnamed n0 n1 n2 n3 n4 n5 (warning, e) = n3 e
    unnamed n0 n1 n2 n3 n4 n5 (error, e) = n4 e
    unnamed n0 n1 n2 n3 n4 n5 (fatal, e) = n5 e
