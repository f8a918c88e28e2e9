-- ===== src/Work/Mutation/Laws/Allowing.antt =====
-- The requests whose path `_admit` allows, in terms of the allowlists and the parts of the path.
use mathlib.Core.List.{Memᴰ}
use context_vault.Prelude.{◌≡◌, ◌≢◌, refl, true, false, List, [], ◌∷◌, is_empty, arith, String}
use context_vault.Work.Authority.{
  EffectCapability, write_receipt_marker, EffectRequest, ScopedEffectContext,
}
use context_vault.Work.Mutation.Paths.{path_parts, is_absolute, as_posix}
use context_vault.Work.Mutation.Scoped.{has_capability, admits_path}
use context_vault.Work.Laws.Entitling.{contains-Mem, missing}

-- The context grants the capability and lists the path, which is relative, not empty, and without `..`.
pub record IsAllowed (context : ScopedEffectContext) (request : EffectRequest) : Type 0 where
  pub granted : Memᴰ request.capability context.capabilities
  pub relative : is_absolute request.relative_path ≡ false
  pub proper : path_parts request.relative_path ≢ []
  pub below : ¬ Memᴰ ".." (path_parts request.relative_path)
  pub listed : Memᴰ (as_posix (path_parts request.relative_path)) context.allowed_paths

only_capability : (c d : EffectCapability) → c ≡ d
only_capability write_receipt_marker write_receipt_marker = refl

granted-of :
    (c : EffectCapability) (capabilities : List EffectCapability)
    → has_capability capabilities ≡ true
    → Memᴰ c capabilities
granted-of c [] h = cc
granted-of c (d ∷ rest) h = Memᴰ.head (only_capability c d)

nonempty : (parts : List String) → is_empty parts ≡ false → parts ≢ []
nonempty [] h e = cc
nonempty (x ∷ xs) h e = cc

pub admits_path-IsAllowed :
    (context : ScopedEffectContext) (request : EffectRequest)
    → admits_path context request ≡ true
    → IsAllowed context request
unfolding admits_path
admits_path-IsAllowed context request h =
    let parts = path_parts request.relative_path in
    record {
      granted = granted-of request.capability context.capabilities (ground arith);
      relative = ground arith;
      proper = nonempty parts (ground arith);
      below = missing ".." parts (ground arith);
      listed = contains-Mem (as_posix parts) context.allowed_paths (ground arith);
    }
