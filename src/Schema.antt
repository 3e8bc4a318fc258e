-- ===== src/Schema.antt =====
-- prisma/schema.prisma as the services use it: the enumerations, the rows, and the state that all
-- services share.
--
-- Ids are numbers, since the code only compares them. Times are milliseconds, distances metres,
-- and amounts of money paisa, the hundredths that a DECIMAL(10, 2) column holds. Labels, notes and
-- other texts that no test reads are left out of the rows.
pub mod Enums
pub mod Rows
pub mod Db
