-- ===== src/Hazards/Model.antt =====
-- app/hazards/models/hazard_event.py. The check constraints of the columns `source` and
-- `hazard_type` are the data types. `G` is the type of geometries and `F` that of floats.
use geo_hazard.Base.{
  ℕ, String, ◌≡◌, ◌↔◌, refl, Bool, true, false, ◌&&◌, Option, List, arith, str_eq, eq_iff, subst,
  sym, ◌∙◌,
}
use geo_hazard.Base.Query.{first_where}
use geo_hazard.Base.Dict.{Dict}
use geo_hazard.Base.Json.{Json}

pub data Source : Type 0 where
  effis ign aemet : Source

pub data HazardType : Type 0 where
  wildfire earthquake weather_warning : HazardType

pub Source-discrete : Discrete Source
Source-discrete = hlevel

abbrev pub same_source : Source → Source → Bool
same_source effis effis = true
same_source ign ign = true
same_source aemet aemet = true
same_source _ _ = false

abbrev pub same_type : HazardType → HazardType → Bool
same_type wildfire wildfire = true
same_type earthquake earthquake = true
same_type weather_warning weather_warning = true
same_type _ _ = false

pub same_source_iff : (a b : Source) → (same_source a b ≡ true) ↔ (a ≡ b)
same_source_iff effis effis = (λ _. refl, λ _. refl)
same_source_iff ign ign = (λ _. refl, λ _. refl)
same_source_iff aemet aemet = (λ _. refl, λ _. refl)
same_source_iff effis ign = (λ e. cc, λ e. cc)
same_source_iff effis aemet = (λ e. cc, λ e. cc)
same_source_iff ign effis = (λ e. cc, λ e. cc)
same_source_iff ign aemet = (λ e. cc, λ e. cc)
same_source_iff aemet effis = (λ e. cc, λ e. cc)
same_source_iff aemet ign = (λ e. cc, λ e. cc)

pub same_type_iff : (a b : HazardType) → (same_type a b ≡ true) ↔ (a ≡ b)
same_type_iff wildfire wildfire = (λ _. refl, λ _. refl)
same_type_iff wildfire earthquake = (λ e. cc, λ e. cc)
same_type_iff wildfire weather_warning = (λ e. cc, λ e. cc)
same_type_iff earthquake wildfire = (λ e. cc, λ e. cc)
same_type_iff earthquake earthquake = (λ _. refl, λ _. refl)
same_type_iff earthquake weather_warning = (λ e. cc, λ e. cc)
same_type_iff weather_warning wildfire = (λ e. cc, λ e. cc)
same_type_iff weather_warning earthquake = (λ e. cc, λ e. cc)
same_type_iff weather_warning weather_warning = (λ _. refl, λ _. refl)

-- What a source sends beside the common columns.
abbrev pub Attrs : Type 0 → Type 0
Attrs F = Dict (Json F)

-- A row as the use cases build it for the upsert.
pub record NewEvent (G F : Type 0) : Type 0 where
  pub source : Source
  pub hazard_type : HazardType
  pub external_id : String
  pub geom : G
  pub severity : ℕ
  pub starts_at : ℕ
  pub ends_at : Option ℕ
  pub attrs : Attrs F
  pub content_hash : String

-- A row of the table.
pub record HazardEvent (G F : Type 0) : Type 0 where
  pub id : ℕ
  pub source : Source
  pub hazard_type : HazardType
  pub external_id : String
  pub geom : G
  pub severity : ℕ
  pub starts_at : ℕ
  pub ends_at : Option ℕ
  pub attrs : Attrs F
  pub content_hash : String
  pub province_code : Option String
  pub created_at : ℕ
  pub updated_at : Option ℕ

-- The unique key of the table.
pub record Key : Type 0 where
  pub source : Source
  pub external_id : String

abbrev pub same_key : Key → Key → Bool
same_key a b = same_source a.source b.source && str_eq a.external_id b.external_id

pub same_key_iff : (a b : Key) → (same_key a b ≡ true) ↔ (a ≡ b)
same_key_iff a b =
    ground (arith, same_source_iff a.source b.source, eq_iff a.external_id b.external_id)

pub same_key_refl : (k : Key) → same_key k k ≡ true
same_key_refl k = (same_key_iff k k).1 refl

pub same_key_sym : (a b : Key) → same_key a b ≡ same_key b a
same_key_sym a b = ground (arith, same_key_iff a b, same_key_iff b a)

pub same_key_other :
    (a r k : Key) → same_key a r ≡ true → same_key r k ≡ false → same_key a k ≡ false
same_key_other a r k h n = subst (λ z. same_key z k ≡ false) (sym ((same_key_iff a r).0 h)) n

pub same_key_join : (a b k : Key) → same_key a k ≡ true → same_key b k ≡ true → same_key a b ≡ true
same_key_join a b k p q =
    (same_key_iff a b).1 ((same_key_iff a k).0 p ∙ sym ((same_key_iff b k).0 q))

abbrev pub EventTable : Type 0 → Type 0 → Type 0
EventTable G F = List (HazardEvent G F)

module _ {G F : Type 0} where
  abbrev pub new_key : NewEvent G F → Key
  new_key r = record { source = r.source; external_id = r.external_id }

  abbrev pub row_key : HazardEvent G F → Key
  row_key r = record { source = r.source; external_id = r.external_id }

  -- The row of a key.
  abbrev pub event_at : Key → EventTable G F → Option (HazardEvent G F)
  event_at k t = first_where (λ e. same_key (row_key e) k) t
