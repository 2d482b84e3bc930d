-- ===== src/AppConfig/Resolve/Laws.antt =====
-- What a resolved configuration promises.
use onboardd.Prelude.{
  String, Bool, Option-cases, inl, inr, Option, none, some, string_eq, refl, subst, ◌≡◌, arith,
}
use onboardd.GoError.{ok, Result-cases, ok-injective}
use onboardd.AppConfig.Types.{Config, Overrides, apply_overrides, over}
use onboardd.AppConfig.Validate.{Texts, validate}
use onboardd.AppConfig.Resolve.{Opened, resolve, load}

over_again : {A : Type 0} (x : Option A) (y : A) → over x (over x y) ≡ over x y
over_again none y = refl
over_again (some b) y = refl

-- A value that is given stands in the configuration.
abbrev pub Given : Overrides → Config → Type 0
Given o c =
    (over o.network_interface c.network.interface ≡ c.network.interface)
    × (over o.network_requirement c.network.requirement ≡ c.network.requirement)
    × (over o.infrastructure_enabled c.network.infrastructure_enabled
        ≡ c.network.infrastructure_enabled)
    × (over o.standalone_enabled c.network.standalone_enabled ≡ c.network.standalone_enabled)
    × (over o.listener_port c.portal.listener_port ≡ c.portal.listener_port)

abbrev pub Respects : Texts → Overrides → Config → Type 0
Respects texts o c = (validate texts c ≡ none) × Given o c

applied-Given : (c : Config) (o : Overrides) → Given o (apply_overrides c o)
unfolding apply_overrides
applied-Given c o = (
  over_again o.network_interface c.network.interface,
  over_again o.network_requirement c.network.requirement,
  over_again o.infrastructure_enabled c.network.infrastructure_enabled,
  over_again o.standalone_enabled c.network.standalone_enabled,
  over_again o.listener_port c.portal.listener_port,
)

-- A configuration that `Resolve` answers is valid, and what the command line gives is in it.
resolve-Valid :
    (texts : Texts) (path : String) (optional : Bool) (opened : Opened) (overrides : Overrides)
    (c : Config)
    → resolve texts path optional opened overrides ≡ ok c
    → Respects texts overrides c
unfolding resolve
resolve-Valid texts path optional opened overrides c h =
    elim (Result-cases (load path optional opened)) [
      | inr (e, q) ↦ absurd (ground arith)
      | inl (c', q) ↦ elim (Option-cases (validate texts (apply_overrides c' overrides))) [
        | inr (e, v) ↦ absurd (ground arith)
        | inl v ↦
            subst (Respects texts overrides) (ok-injective (ground (arith, v, q, h)))
              (v, applied-Given c' overrides)
      ]
    ]
