-- ===== src/Sync/Cursors.antt =====
-- The cursor of a source: what a sync writes is what the next one reads.
use geo_hazard.Base.{
  ℕ, String, ◌≡◌, refl, ap, ◌∙◌, Option, none, some, some_inj, none_ne_some, List, [], ◌∷◌, map,
  any, str_eq, eq_iff, text_before,
}
use geo_hazard.Base.Query.{order_by}
use geo_hazard.Base.Query.Order.{any-order_by}
use geo_hazard.Base.Json.{text, to_items, items_of}
use geo_hazard.Sync.{texts_of, ids_of, Cursor, previous_ids, ids_cursor}
use mathlib.Core.Option
use geo_hazard.Base.Dict.{lookup}
use geo_hazard.Sources.Health.{cursor-record_success}
use geo_hazard.Sources.{SourceSyncState, state_of, record_success}

texts_of-text :
    (F : Type 0) (ids : List String) → texts_of {F = F} (items_of (to_items (map text ids))) ≡ ids
texts_of-text F [] = refl
texts_of-text F (i ∷ ids) = ap (λ l. i ∷ l) (texts_of-text F ids)

module _ {F : Type 0} where
  previous_ids-cursor :
      (key : String) (c : Cursor F) (o : Option (SourceSyncState (Cursor F)))
      → Option.map (λ s. s.cursor) o ≡ some c
      → previous_ids key o ≡ ids_of (lookup key c)
  unfolding previous_ids
  previous_ids-cursor key c none h = absurd (none_ne_some h)
  previous_ids-cursor key c (some s) h = ap (λ c. ids_of (lookup key c)) (some_inj h)

  -- The ids that a sync has written to its cursor are the ones that the next sync reads.
  pub any-previous_ids :
      (id key source : String) (ids : List String) (empty : Cursor F) (now : ℕ)
      (t : List (SourceSyncState (Cursor F)))
      → any (str_eq id) (
          previous_ids key
            (state_of source (record_success empty source (some (ids_cursor key ids)) now t)))
        ≡ any (str_eq id) ids
  unfolding ids_cursor lookup
  any-previous_ids id key source ids empty now t =
      ap (any (str_eq id)) (
        previous_ids-cursor key (ids_cursor key ids) _
          (cursor-record_success empty source (ids_cursor key ids) now t)
        ∙ rw ((eq_iff key key).1 refl) (texts_of-text F (order_by text_before ids)))
      ∙ any-order_by (str_eq id) text_before ids
