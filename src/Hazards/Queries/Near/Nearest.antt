-- ===== src/Hazards/Queries/Near/Nearest.antt =====
-- What `near_page` promises: the nearest rows, as many as the limit lets through.
use mathlib.Core.List.{Perm}
use geo_hazard.Base.{
  ℕ, min, ◌≡◌, refl, sym, ap, subst, ◌∙◌, Bool, false, [], ◌∷◌, ◌++◌, map, take, drop, length,
  length-take, take-append-drop, All, All-map, arith,
}
use geo_hazard.Base.Query.{select_where, order_by}
use geo_hazard.Base.Query.Order.{
  IsOrdering, IsOrdered, order_by-IsOrdered, order_by-perm, length-order_by, IsOrdered-behind,
}
use geo_hazard.Hazards.Model.{HazardEvent, EventTable}
use geo_hazard.Hazards.Queries.{QueryLibraries, EventQuery}
use geo_hazard.Hazards.Queries.Near.{Around, nearer, is_near, near_rows, with_distance, near_page}

module _ {G F : Type 0} (lib : QueryLibraries G F) (around : Around G F) where
  -- The distances of geometries, which are numbers, are ordered.
  abbrev pub closer : G → G → Bool
  closer g h = lib.floats.lt (around.distance g) (around.distance h)

  nearer-IsOrdering : IsOrdering closer → IsOrdering (nearer lib around)
  nearer-IsOrdering o = record {
    asym = λ a b h. ground (arith, o.asym a.geom b.geom, o.asym b.geom a.geom, h);
    ties = λ a b c h k. ground (
      arith,
      o.ties a.geom b.geom c.geom,
      o.ties b.geom c.geom a.geom,
      o.ties c.geom a.geom b.geom,
      h,
      k,
    );
  }

  nearer-closer :
      (a b : HazardEvent G F) → nearer lib around a b ≡ false → closer a.geom b.geom ≡ false
  nearer-closer a b h = ground (arith, h)

  rows_of : (rows : EventTable G F) → map (λ r. r.0) (map (with_distance lib around) rows) ≡ rows
  rows_of [] = refl
  rows_of (e ∷ rows) = ap (λ es. e ∷ es) (rows_of rows)

  abbrev pub page_rows : ℕ → EventQuery → EventTable G F → EventTable G F
  page_rows now q t = map (λ r. r.0) (near_page lib around now q t)

  page_rows-take :
      (now : ℕ) (q : EventQuery) (t : EventTable G F)
      → page_rows now q t ≡ take q.limit (near_rows lib around now q t)
  unfolding near_page
  page_rows-take now q t = rows_of (take q.limit (near_rows lib around now q t))

  -- The page around a point has as many rows as the limit lets through of those that are within the
  -- radius and pass the filters. The rows of the page and those that are left out are these rows,
  -- each once, and none that is left out is closer to the point than one of the page.
  pub near_page-nearest :
      (now : ℕ) (q : EventQuery) (t : EventTable G F)
      → IsOrdering closer
      → (rest : EventTable G F) × Perm
          (page_rows now q t ++ rest)
          (select_where (is_near lib around now q) t)
        × (length (page_rows now q t)
            ≡ min q.limit (length (select_where (is_near lib around now q) t)))
        × All (λ p. All (λ r. closer r.geom p.geom ≡ false) rest) (page_rows now q t)
  near_page-nearest now q t o =
      let before = nearer lib around in
      let matching = select_where (is_near lib around now q) t in
      let rows = order_by before matching in
      let whole = take-append-drop q.limit rows in
      let page = page_rows-take now q t in
      let ordered =
        subst (IsOrdered before) (sym whole)
          (order_by-IsOrdered before (nearer-IsOrdering o) matching) in
      (
        drop q.limit rows,
        subst (λ xs. Perm (xs ++ drop q.limit rows) matching) (sym page)
            (subst (λ xs. Perm xs matching) (sym whole) (order_by-perm before matching)),
        ap length page
            ∙ length-take q.limit rows
            ∙ ap (min q.limit) (length-order_by before matching),
        subst (All (λ p. All (λ r. closer r.geom p.geom ≡ false) (drop q.limit rows))) (sym page) (
            All-map _ _ (take q.limit rows)
              (λ p h. All-map _ _ (drop q.limit rows) (λ r. nearer-closer r p) h)
              (IsOrdered-behind before (take q.limit rows) (drop q.limit rows) ordered)),
      )
