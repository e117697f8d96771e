-- ===== src/Zkp.antt =====
-- include/crypto/zero_knowledge_proof/zero_knowledge_proof_status.h
pub data ZkpStatus : Type 0 where
  unknown_error invalid_parameter insufficient_buffer verification_failed out_of_memory : ZkpStatus
