-- ===== src/Domain/Evaluations.antt =====
-- Recommendations from evaluation results (src/temper_ml/domain/evaluations.py).
pub mod Ranking
