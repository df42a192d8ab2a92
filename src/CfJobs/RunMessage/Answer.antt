-- ===== src/CfJobs/RunMessage/Answer.antt =====
-- How a delivery is answered: the settlement, then one `ack` or one `retry`.
