-- ===== src/AgentTrial.antt =====
-- src/qveris_bench/agent_trial: the checks of what an agent's model answers.
pub mod Messages
pub mod ParamFill
pub mod ErrorRecovery
