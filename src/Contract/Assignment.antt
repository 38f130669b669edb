-- ===== src/Contract/Assignment.antt =====
-- An assignment, `process_assignment` (crates/duty-tracker/src/contract_state_machine.rs).
use strata_bridge.Prelude.{ℕ, not, none, some, ◌==◌, if◌then◌else◌, first?}
use strata_bridge.Prelude.BTreeMap.{get}
use strata_bridge.Operators.{idx_to_p2p_key}
use strata_bridge.Contract.Types.{Deposited, ContractSm, deposited, assigned, aborted}
use strata_bridge.Contract.Duties.{
  DepositEntry, OperatorDuty, Outcome, Calls, dispatched, not_dispatched, handle_fulfillment,
  fulfiller_duty, unexpected_assignment, no_operator_key, no_claim_txid, no_graph, no_recipient,
  no_withdrawal_request_txid, not_dispatched_entry, accepted, rejected,
}
use strata_bridge.Contract.Chain.{set_state, deposit_txid}

-- What the arms of `process_assignment` read of a dispatched assignment.
pub record Dispatch : Type 0 where
  pub assignee : ℕ
  pub assignee_key : ℕ
  pub recipient : ℕ
  pub withdrawal_request_txid : ℕ
  pub deadline : ℕ
  pub stake_tx : ℕ
  pub height : ℕ

abbrev pub handle : Calls → ContractSm → Dispatch → (operator_idx : ℕ) → OperatorDuty
handle calls sm d operator_idx = fulfiller_duty (
    handle_fulfillment d.stake_tx
      (record {
        tag = sm.cfg.peg_out_graph_params.tag;
        operator_idx = operator_idx;
        deposit_idx = sm.cfg.deposit_idx;
        deposit_txid = deposit_txid calls sm;
      })
      d.recipient d.deadline)

-- The arm that `Deposited` and `Assigned` share.
unfoldable pub assign : Calls → ContractSm → Dispatch → Deposited → Outcome
unfolding get
assign calls sm d s = elim (get d.assignee_key s.claim_txids) [
  | none ↦ rejected (no_claim_txid d.assignee_key) sm
  | some claim_txid ↦ elim (get claim_txid s.peg_out_graphs) [
    | none ↦ rejected (no_graph claim_txid) sm
    | some active_graph ↦ accepted (some (handle calls sm d d.assignee)) (
        set_state sm (
          assigned (record {
            peg_out_graphs = s.peg_out_graphs;
            claim_txids = s.claim_txids;
            graph_sigs = s.graph_sigs;
            fulfiller = d.assignee;
            deadline = d.deadline;
            active_graph = active_graph;
            recipient = d.recipient;
            withdrawal_request_txid = d.withdrawal_request_txid;
            l1_start_height = d.height;
          })))
  ]
]

abbrev pub u32_max : ℕ
u32_max = 4294967295

unfoldable pub dispatch : Calls → ContractSm → Dispatch → Outcome
unfolding assign
dispatch calls sm d = elim sm.state.state [
  | deposited s ↦ assign calls sm d s
  | assigned s ↦ assign calls sm d (record {
    peg_out_graphs = s.peg_out_graphs;
    claim_txids = s.claim_txids;
    graph_sigs = s.graph_sigs;
  })
  | aborted ↦ accepted (some (handle calls sm d u32_max)) sm
  | _ ↦ accepted none sm
]

unfoldable pub process_assignment :
    Calls → DepositEntry → (stake_tx height : ℕ) → ContractSm → Outcome
unfolding dispatch
process_assignment calls entry stake_tx height sm =
    if not (entry.idx == sm.cfg.deposit_idx)
    then rejected (unexpected_assignment entry.idx sm.cfg.deposit_idx) sm
    else elim entry.deposit_state [
      | not_dispatched ↦ rejected not_dispatched_entry sm
      | dispatched state ↦ elim (idx_to_p2p_key sm.cfg.operator_table state.assignee) [
        | none ↦ rejected (no_operator_key state.assignee) sm
        | some key ↦ elim (first? state.withdraw_outputs) [
          | none ↦ rejected no_recipient sm
          | some recipient ↦ elim entry.withdrawal_request_txid [
            | none ↦ rejected no_withdrawal_request_txid sm
            | some txid ↦ dispatch calls sm (record {
              assignee = state.assignee;
              assignee_key = key;
              recipient = recipient;
              withdrawal_request_txid = txid;
              deadline = state.exec_deadline;
              stake_tx = stake_tx;
              height = height;
            })
          ]
        ]
      ]
    ]
