-- ===== src/Contracts/Identifiers.antt =====
-- The identifiers that become file names: `stateIdentifier` of contracts/task.ts and the guards
-- `assertSafeStateIdentifier` (stores/file/store.ts) and `assertSafeLeaseIdentifier`
-- (conversations/lease.ts).
use Prim.Native.Char.{code}
use agent_supervisor_runtime.Base.{
  ℕ, String, Bool, not, ◌&&◌, ◌||◌, List, [], ◌∷◌, ◌≡◌, refl, arith, str_eq, is_empty, nat_eq, any,
}

abbrev pub codes : String → List ℕ
codes String.[] = []
codes (String.◌∷◌ c s) = code c ∷ codes s

-- `value.includes(...)` of one character.
abbrev pub includes : String → ℕ → Bool
includes s c = any (nat_eq c) (codes s)

-- The class `[\\/:\0]` of the schema's pattern.
abbrev is_separator : ℕ → Bool
is_separator c = nat_eq c 92 || nat_eq c 47 || nat_eq c 58 || nat_eq c 0

-- z.string().min(1).refine(...)
unfoldable pub state_identifier : String → Bool
state_identifier value =
    not (is_empty value)
    && (not (str_eq value ".") && (not (str_eq value "..") && not (any is_separator (codes value))))

-- The negation of the condition under which the guards throw.
unfoldable pub is_safe_identifier : String → Bool
is_safe_identifier value = not (
    is_empty value
    || (str_eq value "."
        || (str_eq value ".."
            || (includes value 47
                || (includes value 92 || (includes value 58 || includes value 0))))))

any-is_separator :
    (cs : List ℕ)
    → any is_separator cs
      ≡ (any (nat_eq 47) cs || (any (nat_eq 92) cs || (any (nat_eq 58) cs || any (nat_eq 0) cs)))
any-is_separator [] = refl
any-is_separator (c ∷ cs) = ground (arith, any-is_separator cs)

-- The task schema admits exactly the identifiers that the guards of the file stores let pass.
pub state_identifier-is_safe_identifier :
    (value : String) → state_identifier value ≡ is_safe_identifier value
unfolding state_identifier is_safe_identifier
state_identifier-is_safe_identifier value = ground (arith, any-is_separator (codes value))
