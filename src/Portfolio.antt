-- ===== src/Portfolio.antt =====
-- forecast/models.py: what a sleeve invests in; portfolio/models.py: the account and its validators.
pub mod Target
pub mod Account
