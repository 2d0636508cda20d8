-- ===== src/Hazards/Attribution.antt =====
-- app/core/attribution.py.
use geo_hazard.Base.{
  String, Option, none, some, List, [], ◌∷◌, any, str_eq, text_before, if◌then◌else◌,
}
use geo_hazard.Base.Query.{first_where, order_by}

pub record SourceAttribution : Type 0 where
  pub source : String
  pub text : String
  pub url : String

-- The entries of `ATTRIBUTIONS`.
abbrev pub attributions : List SourceAttribution
attributions =
    record { source = "aemet"; text = "Fuente: AEMET"; url = "https://www.aemet.es/es/nota_legal" }
    ∷ record {
      source = "effis";
      text =
          "Contains modified Copernicus Emergency Management Service information (EFFIS). (c) European Union, CC BY 4.0";
      url = "https://forest-fire.emergency.copernicus.eu/about-effis/data-license";
    }
    ∷ record {
      source = "ign";
      text = "Obra derivada del catalogo de terremotos del IGN, CC-BY 4.0 ign.es";
      url = "https://www.ign.es/resources/licencia/Condiciones_licenciaUso_IGN.pdf";
    }
    ∷ record {
      source = "cnig";
      text = "Obra derivada de las lineas limite del CNIG, CC-BY 4.0 ign.es";
      url = "https://www.ign.es/resources/licencia/Condiciones_licenciaUso_IGN.pdf";
    }
    ∷ []

-- set(sources)
unfoldable pub distinct : List String → List String
distinct [] = []
distinct (s ∷ ss) = let rest = distinct ss in if any (str_eq s) rest then rest else s ∷ rest

abbrev pub with_attribution :
    Option SourceAttribution → List SourceAttribution → List SourceAttribution
with_attribution none rest = rest
with_attribution (some a) rest = a ∷ rest

unfoldable pub attributions_in : List String → List SourceAttribution
attributions_in [] = []
attributions_in (s ∷ ss) =
    with_attribution (first_where (λ (a : SourceAttribution). str_eq a.source s) attributions)
      (attributions_in ss)

unfoldable pub attributions_for : List String → List SourceAttribution
attributions_for sources = attributions_in (order_by text_before (distinct sources))
