-- ===== src/InteractionModel.antt =====
-- matter/src/interaction_model: the status codes and the messages of the interaction model.
pub mod Status
pub mod Messages
pub mod Commands
