-- ===== src/MissionGraph/Service/Reads.antt =====
-- The reading methods hasGraph, getGraph and listGraphs of
-- apps/backend/src/missions/missionGraphService.ts.
use chanter_operator.Prelude.{◌≡◌, refl, String, List, [], ◌∷◌, ℕ}
use chanter_operator.Prelude.Exec.Rules.{Keeps, keeps_rules}
use chanter_operator.MissionGraph.Records.{GraphRecord}
use chanter_operator.MissionGraph.Journal.{Journal, get_graph, require_graph}
use chanter_operator.MissionGraph.Journal.Order.{list_graphs}
use chanter_operator.MissionGraph.Service.{Service, Platform}
use chanter_operator.MissionGraph.Service.Rule.{OnJournal, Keeps-on_journal}
use chanter_operator.MissionGraph.Service.CallRules.{Keeps-build_view}
use chanter_operator.MissionGraph.Service.Views.{
  has_graph, get_graph_view, list_graph_views, view_graphs, Limit,
}

module _ {P : Journal → Type 0} where
  Keeps-list_graphs : (limit : ℕ) → Keeps P (list_graphs limit)
  unfolding list_graphs
  Keeps-list_graphs limit = search keeps_rules

  Keeps-read_graph : (id : String) → Keeps P (require_graph id)
  unfolding require_graph get_graph
  Keeps-read_graph id = search keeps_rules

  Keeps-find_graph : (id : String) → Keeps P (get_graph id)
  unfolding get_graph
  Keeps-find_graph id = search keeps_rules

ruleset read_rules = (
  keeps_rules, Keeps-list_graphs, Keeps-read_graph, Keeps-find_graph, Keeps-on_journal,
  Keeps-build_view,
)

module _ {W : Type 0} (p : Platform W) {P : Journal → Type 0} where
  Keeps-view_graphs :
      (graphs : List GraphRecord) → Keeps {S = Service W} (OnJournal P) (view_graphs p graphs)
  unfolding view_graphs
  Keeps-view_graphs [] = search read_rules
  Keeps-view_graphs (graph ∷ rest) =
      let later = Keeps-view_graphs rest in search read_rules depth 12

  Keeps-get_graph_view : (id : String) → Keeps {S = Service W} (OnJournal P) (get_graph_view p id)
  unfolding get_graph_view
  Keeps-get_graph_view id = search read_rules depth 12

  Keeps-has_graph : (id : String) → Keeps {S = Service W} (OnJournal P) (has_graph id)
  unfolding has_graph
  Keeps-has_graph id = search read_rules depth 12

ruleset list_rules = (read_rules, Keeps-view_graphs)

module _ {W : Type 0} (p : Platform W) {P : Journal → Type 0} where
  Keeps-list_graph_views :
      (limit : Limit) → Keeps {S = Service W} (OnJournal P) (list_graph_views p limit)
  unfolding list_graph_views
  Keeps-list_graph_views limit = search list_rules depth 12

-- Reading changes nothing: hasGraph, getGraph and listGraphs leave the journal as it was, whether
-- they return or throw.
pub reads_leave :
    {W : Type 0} (p : Platform W) (id : String) (limit : Limit) (s : Service W)
    → ((has_graph id s).1.journal ≡ s.journal)
      × ((get_graph_view p id s).1.journal ≡ s.journal)
      × ((list_graph_views p limit s).1.journal ≡ s.journal)
reads_leave p id limit s = (
  ((Keeps-has_graph p {P = λ j. j ≡ s.journal} id).at s (record { holds = refl })).holds,
  ((Keeps-get_graph_view p {P = λ j. j ≡ s.journal} id).at s (record { holds = refl })).holds,
  ((Keeps-list_graph_views p {P = λ j. j ≡ s.journal} limit).at s (record { holds = refl })).holds,
)
