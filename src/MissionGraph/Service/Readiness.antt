-- ===== src/MissionGraph/Service/Readiness.antt =====
-- The choice of the nodes to dispatch in runScheduler of
-- apps/backend/src/missions/missionGraphService.ts.
use chanter_operator.Prelude.{Bool}
use chanter_operator.MissionGraph.Records.{NodeRecord}
use chanter_operator.MissionGraph.Journal.Order.{text_lt}

abbrev in_order : NodeRecord → NodeRecord → Bool
in_order a b = text_lt a.node_id b.node_id
