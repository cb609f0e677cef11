-- ===== src/MissionGraph/Service/Calls.antt =====
-- Clients of MissionGraphService (apps/backend/src/missions/missionGraphService.ts): any sequence
-- of submissions, approvals, resumptions and cancellations of any graphs, where a call that throws
-- lets the next one follow.
use chanter_operator.Prelude.{◌≡◌, String, Option, List, [], ◌∷◌, some, find, true}
use chanter_operator.Json.{Json}
use chanter_operator.MissionGraph.States.{is_final_graph}
use chanter_operator.MissionGraph.Records.{GraphRecord}
use chanter_operator.MissionGraph.Journal.{Journal, graph_is}
use chanter_operator.MissionGraph.Journal.Rule.{approves_by_approval, IsKept}
use chanter_operator.MissionGraph.Journal.Sequence.{IsNumbered, writes-IsNumbered}
use chanter_operator.MissionGraph.Journal.Bounds.{IsBounded, writes-IsBounded}
use chanter_operator.MissionGraph.Journal.History.{Extends, Extends-refl}
use chanter_operator.MissionGraph.Journal.History.Writes.{writes-Extends}
use chanter_operator.MissionGraph.Journal.History.Runs.{GraphPath-final}
use chanter_operator.MissionGraph.Service.{Service, Platform}
use chanter_operator.MissionGraph.Service.Submission.{submit_graph}
use chanter_operator.MissionGraph.Service.SubmissionRules.{Keeps-submit_graph}
use chanter_operator.MissionGraph.Service.Approval.{approve_graph}
use chanter_operator.MissionGraph.Service.Recovery.{resume_graph}
use chanter_operator.MissionGraph.Service.Cancellation.{cancel_graph}
use chanter_operator.MissionGraph.Service.Rule.{OnJournal}
use chanter_operator.MissionGraph.Service.CallRules.{
  Keeps-approve_graph, Keeps-resume_graph, Keeps-cancel_graph,
}

pub data ControlCall : Type 0 where
  submits : Json → ControlCall
  approves : String → Option Json → Option Json → ControlCall
  resumes : String → ControlCall
  cancels : String → Option Json → Option Json → ControlCall

module _ {W : Type 0} (p : Platform W) where
  unfoldable pub serve : ControlCall → Service W → Service W
  serve (submits envelope) s = (submit_graph p envelope s).1
  serve (approves id approved_by graph_hash) s = (approve_graph p id approved_by graph_hash s).1
  serve (resumes id) s = (resume_graph p id s).1
  serve (cancels id cancelled_by reason) s = (cancel_graph p id cancelled_by reason s).1

  unfoldable pub serve_all : List ControlCall → Service W → Service W
  serve_all [] s = s
  serve_all (c ∷ cs) s = serve_all cs (serve c s)

  module _ {P : Journal → Type 0} (kept : IsKept approves_by_approval P) where
    serve-keeps : (c : ControlCall) (s : Service W) → OnJournal P s → OnJournal P (serve c s)
    unfolding serve
    serve-keeps (submits envelope) = (Keeps-submit_graph p kept.appends envelope).at
    serve-keeps (approves id approved_by graph_hash) =
        (Keeps-approve_graph p kept id approved_by graph_hash).at
    serve-keeps (resumes id) = (Keeps-resume_graph p kept id).at
    serve-keeps (cancels id cancelled_by reason) =
        (Keeps-cancel_graph p kept id cancelled_by reason).at

    pub serve_all-keeps :
        (cs : List ControlCall) (s : Service W) → OnJournal P s → OnJournal P (serve_all cs s)
    unfolding serve_all
    serve_all-keeps [] s h = h
    serve_all-keeps (c ∷ cs) s h = serve_all-keeps cs (serve c s) (serve-keeps c s h)

-- Whatever submissions, approvals, resumptions and cancellations are served, whatever the child
-- missions answer and whatever throws in between: every stored graph and node stays stored with its
-- identifiers, document, hash and dependencies, moves only along allowed transitions, and no event
-- is lost.
pub serve_all-Extends :
    {W : Type 0} (p : Platform W) (cs : List ControlCall) (s : Service W)
    → Extends s.journal (serve_all p cs s).journal
serve_all-Extends p cs s =
    (serve_all-keeps p (writes-Extends s.journal) cs s
      (record { holds = Extends-refl s.journal })).holds

-- Where each graph's events are numbered 1, 2, 3, … without a gap, they are so whatever is served.
pub serve_all-IsNumbered :
    {W : Type 0} (p : Platform W) (cs : List ControlCall) (s : Service W)
    → IsNumbered s.journal
    → IsNumbered (serve_all p cs s).journal
serve_all-IsNumbered p cs s h =
    (serve_all-keeps p writes-IsNumbered cs s (record { holds = h })).holds

-- Where no node's attempts exceed three, none do whatever is served.
pub serve_all-IsBounded :
    {W : Type 0} (p : Platform W) (cs : List ControlCall) (s : Service W)
    → IsBounded s.journal
    → IsBounded (serve_all p cs s).journal
serve_all-IsBounded p cs s h =
    (serve_all-keeps p writes-IsBounded cs s (record { holds = h })).holds

-- A graph that is completed, cancelled or failed for good keeps that state, whatever is served.
pub serve_all-final :
    {W : Type 0} (p : Platform W) (cs : List ControlCall) (s : Service W) (id : String)
    (g : GraphRecord)
    → find (graph_is id) s.journal.graphs ≡ some g
    → is_final_graph g.status ≡ true
    → (h : GraphRecord) × (find (graph_is id) (serve_all p cs s).journal.graphs ≡ some h)
      × (h.status ≡ g.status)
serve_all-final p cs s id g e f =
    let (h, eh, later) = (serve_all-Extends p cs s).graphs_live id g e in
    (h, eh, GraphPath-final f later.path)
