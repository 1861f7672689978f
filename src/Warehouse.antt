-- ===== src/Warehouse.antt =====
-- src/pipeline/warehouse: what Snowflake holds, and the loader's way through it. The modules below
-- are the MERGE statement (ddl/003_merge.sql), the driver's session, and loader.py.
pub mod Merge
pub mod Session
pub mod Loader
