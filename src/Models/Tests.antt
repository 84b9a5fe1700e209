-- ===== src/Models/Tests.antt =====
-- Tests of server/models/models.py.
