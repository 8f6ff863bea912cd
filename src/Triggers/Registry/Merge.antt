-- ===== src/Triggers/Registry/Merge.antt =====
-- `mergeTriggers` of registry.ts.
use datamaster.Prelude.{◌≡◌, refl, ap, ◌∙◌, Option, none, some, List, [], ◌∷◌, ◌++◌}
use mathlib.Core.Option
use datamaster.Triggers.Registry.{
  Events, Triggers, when_any, merge_triggers, merge_timing, merge_events, no_events,
}

pub data Timing : Type 0 where
  pre post : Timing

pub data Event : Type 0 where
  created updated deleted : Event

abbrev pub events_at : {A : Type 0} → Timing → Triggers A → Option (Events A)
events_at pre t = t.pre
events_at post t = t.post

abbrev pub actions_on : {A : Type 0} → Event → Events A → List A
actions_on created e = Option.get_or e.created []
actions_on updated e = Option.get_or e.updated []
actions_on deleted e = Option.get_or e.deleted []

abbrev pub actions_of : {A : Type 0} → Event → Option (Events A) → List A
actions_of event none = []
actions_of event (some e) = actions_on event e

-- The actions that a model's triggers hold for a timing and an event.
abbrev pub actions : {A : Type 0} → Timing → Event → Triggers A → List A
actions timing event t = actions_of event (events_at timing t)

module _ {A : Type 0} where
  get_or-when_any : (l : List A) → Option.get_or (when_any l) [] ≡ l
  get_or-when_any [] = refl
  get_or-when_any (a ∷ l) = refl

  merge_events-actions :
      (event : Event) (base extra : Events A)
      → actions_on event (merge_events base extra) ≡ actions_on event base ++ actions_on event extra
  merge_events-actions created base extra = get_or-when_any _
  merge_events-actions updated base extra = get_or-when_any _
  merge_events-actions deleted base extra = get_or-when_any _

  no_events-actions : (event : Event) → actions_on {A = A} event no_events ≡ []
  no_events-actions created = refl
  no_events-actions updated = refl
  no_events-actions deleted = refl

  merge_timing-actions :
      (event : Event) (base extra : Option (Events A))
      → actions_of event (merge_timing base extra) ≡ actions_of event base ++ actions_of event extra
  merge_timing-actions event none none = refl
  merge_timing-actions event none (some extra) =
      merge_events-actions event no_events extra
      ∙ ap (λ l. l ++ actions_on event extra) (no_events-actions event)
  merge_timing-actions event (some base) none =
      merge_events-actions event base no_events
      ∙ ap (λ l. actions_on event base ++ l) (no_events-actions event)
  merge_timing-actions event (some base) (some extra) = merge_events-actions event base extra

  -- For every timing and event, the merge of two triggers holds the actions of the first, then
  -- those of the second.
  pub merge_triggers-actions :
      (timing : Timing) (event : Event) (base extra : Triggers A)
      → actions timing event (merge_triggers base extra)
        ≡ actions timing event base ++ actions timing event extra
  unfolding merge_triggers
  merge_triggers-actions pre event base extra = merge_timing-actions event base.pre extra.pre
  merge_triggers-actions post event base extra = merge_timing-actions event base.post extra.post
