-- ===== src/Deployment/Registry.antt =====
-- The registry of the images.
use Prim.Native.Char.{Char}
use Prim.Native.String.append
use workbench_operator.Base.{
  String, ◌<>◌, Bool, sym, ap, ◌∙◌, true, false, ◌≡◌, refl, ◌≢◌, arith, string_eq, differ,
}
use workbench_operator.Base.Text.Laws.{trim_right-slash}
use workbench_operator.Config.{Config}
use workbench_operator.Workbench.{Workbench}
use workbench_operator.Deployment.{registry_prefix, server_image}

is_empty : String → Bool
is_empty String.[] = true
is_empty (String.◌∷◌ _ _) = false

no_char : (c : Char) (s : String) → String.◌∷◌ c s ≢ ""
unfolding is_empty
no_char c s e = let q = ap is_empty e in ground arith

slash_end : (s : String) → s <> "/" ≢ ""
slash_end String.[] e = differ "/" "" refl e
slash_end (String.◌∷◌ c s) e = no_char c (s <> "/") (sym (append.cons c s "/") ∙ e)

-- A slash at the end of a registry that is not empty makes no difference to the image of the server.
server_image-slash :
    (wb : Workbench) (config : Config)
    → config.registry ≢ ""
    → server_image wb (record config { registry = config.registry <> "/" }) ≡ server_image wb config
unfolding server_image registry_prefix
server_image-slash wb config n =
    ground (arith, slash_end config.registry, trim_right-slash config.registry)
