-- ===== src/Graph/Tests.antt =====
-- Runs of the graph crate's tests, and instances of the theorems.
use secureops.Prelude.{ℕ, ◌≡◌, refl, true, String}
use secureops.Prelude.Map
use secureops.Prelude.Map.{String-Key}
use secureops.Graph.{
  connects_to, new_node, SecurityGraph, new, add_node, add_edge, targets_of, is_sensitive,
  blast_radius,
}
use secureops.Graph.Radius.{IsRadius, blast_radius-IsRadius}

abbrev Cost : Type 0
Cost = ℕ

abbrev link : String → String → SecurityGraph Cost → SecurityGraph Cost
unfolding add_edge
link from to g = add_edge Cost (λ d. d) from to connects_to 1 g

-- A cycle from web to app to db and back, with a database and a vault that are sensitive.
abbrev cycle : SecurityGraph Cost
unfolding add_node link
cycle = link "db" "web" (
    link "app" "vault" (
      link "app" "db" (
        link "web" "app" (
          add_node Cost (record (new_node "vault" "secret") { sensitive = true })
            (add_node Cost (record (new_node "db" "rds") { sensitive = true }) (new Cost))))))

radius_test : (blast_radius Cost cycle "web" ≡ 2) × (blast_radius Cost cycle "db" ≡ 1)
unfolding cycle add_node add_edge blast_radius targets_of is_sensitive Map.get Map.insert
radius_test = (refl, refl)

blast_radius-IsRadius_example : IsRadius Cost cycle "web" (blast_radius Cost cycle "web")
blast_radius-IsRadius_example = blast_radius-IsRadius Cost cycle "web"
