-- ===== src/Crypto/Text.antt =====
-- The functions of package strings that the program uses, over code points, and NormalizeEmail of
-- internal/crypto/keys.go.
use go_vault.Prelude.{not, [], ◌∷◌, map, if◌then◌else◌, Bytes, ◌==◌, filter}
use mathlib.Core.List.{reverse}
use go_vault.Primitives.{Primitives}

module _ (p : Primitives) where
  unfoldable pub drop_space : Bytes → Bytes
  drop_space [] = []
  drop_space (c ∷ cs) = if p.is_space c then drop_space cs else c ∷ cs

  -- strings.TrimSpace
  unfoldable pub trim_space : Bytes → Bytes
  unfolding drop_space
  trim_space s = reverse (drop_space (reverse (drop_space s)))

  -- strings.ToLower
  unfoldable pub lower : Bytes → Bytes
  lower s = map p.to_lower s

  -- strings.ToUpper
  unfoldable pub upper : Bytes → Bytes
  upper s = map p.to_upper s

  unfoldable pub normalize_email : Bytes → Bytes
  unfolding trim_space lower
  normalize_email email = lower (trim_space email)

-- strings.ReplaceAll(s, "-", "")
unfoldable pub remove_dashes : Bytes → Bytes
remove_dashes s = filter (λ c. not (c == b'-')) s
