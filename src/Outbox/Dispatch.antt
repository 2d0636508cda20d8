-- ===== src/Outbox/Dispatch.antt =====
-- app/core/events/dispatcher.py. A handler is a name and what it does: to the world `W` it gives
-- an error text or none, a timeout being an error, and the world that it leaves.
use geo_hazard.Base.{
  String, Bool, true, false, not, ◌&&◌, Option, none, some, List, [], ◌∷◌, ◌++◌, or_default, ◌&◌,
}
use geo_hazard.Base.Query.{select_where}
use geo_hazard.Base.Dict.{Dict, lookup, insert}

pub record HandlerResult : Type 0 where
  pub handler_name : String
  pub success : Bool
  pub error : Option String
  pub skipped : Bool

module _ (W P : Type 0) where
  pub record Handler : Type 0 where
    pub name : String
    pub run : P → W → Option String × W

  abbrev pub Dispatcher : Type 0
  Dispatcher = Dict (List Handler)

abbrev pub result_of : String → Option String → HandlerResult
result_of name none = record { handler_name = name; success = true; error = none; skipped = false }
result_of name (some e) = record {
  handler_name = name;
  success = false;
  error = some e;
  skipped = false;
}

abbrev pub skip : String → HandlerResult
skip name = record { handler_name = name; success = true; error = none; skipped = true }

module _ {W P : Type 0} where
  abbrev pub handlers_of : Dispatcher W P → String → List (Handler W P)
  handlers_of d event_type = or_default (lookup event_type d) []

  -- `register(event_type)(func)`
  unfoldable pub register : String → Handler W P → Dispatcher W P → Dispatcher W P
  register event_type h d = insert event_type (handlers_of d event_type ++ h ∷ []) d

  unfoldable pub dispatch_all :
      (String → Bool) → P → List (Handler W P) → W → List HandlerResult × W
  dispatch_all completed payload [] w = ([], w)
  dispatch_all completed payload (h ∷ hs) w = elim (completed h.name) [
    | true ↦ let (rs, w') = dispatch_all completed payload hs w in (skip h.name ∷ rs, w')
    | false ↦
        let (error, w₁) = h.run payload w in
        let (rs, w') = dispatch_all completed payload hs w₁ in (result_of h.name error ∷ rs, w')
  ]

  unfoldable pub dispatch :
      Dispatcher W P → String → P → (String → Bool) → W → List HandlerResult × W
  unfolding dispatch_all
  dispatch d event_type payload completed w =
      dispatch_all completed payload (handlers_of d event_type) w

unfoldable pub every_success : List HandlerResult → Bool
every_success [] = true
every_success (r ∷ rs) = r.success && every_success rs

-- No result is no success.
unfoldable pub all_succeeded : List HandlerResult → Bool
unfolding every_success
all_succeeded [] = false
all_succeeded (r ∷ rs) = every_success (r ∷ rs)

joined : String → List HandlerResult → String
joined sep [] = ""
joined sep (r ∷ []) = "[" & r.handler_name & "] " & or_default r.error "None"
joined sep (r ∷ s ∷ rs) =
    "[" & r.handler_name & "] " & or_default r.error "None" & sep & joined sep (s ∷ rs)

unfoldable pub errors_summary : List HandlerResult → String
unfolding joined
errors_summary [] = "no handlers registered"
errors_summary (r ∷ rs) = joined "\n---\n" (select_where (λ r. not r.success) (r ∷ rs))
