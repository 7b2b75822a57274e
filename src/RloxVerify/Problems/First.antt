-- ===== src/RloxVerify/Problems/First.antt =====
-- environments/rlox_verify/rlox_verify/__init__.py: rows 1 to 10 of `_FALLBACK_PROBLEMS`.
use mathlib.Core.List.{List, [], ◌∷◌}
use rlox.RloxVerify.Problems.Rows.{Row, row}

abbrev pub first_problems : List Row
first_problems =
    row "Write a Python function `add(a, b)` that returns the sum of two numbers." ""
      "assert add(1, 2) == 3\nassert add(-1, 1) == 0\nassert add(0, 0) == 0\nassert add(100, 200) == 300\n"
    ∷ row "Write a Python function `is_even(n)` that returns True if n is even, False otherwise." ""
        "assert is_even(2) == True\nassert is_even(3) == False\nassert is_even(0) == True\nassert is_even(-4) == True\n"
    ∷ row
        "Write a Python function `reverse_string(s)` that returns the reverse of the input string."
        ""
        "assert reverse_string('hello') == 'olleh'\nassert reverse_string('') == ''\nassert reverse_string('a') == 'a'\nassert reverse_string('abcd') == 'dcba'\n"
    ∷ row
        "Write a Python function `count_vowels(s)` that counts the number of vowels (a, e, i, o, u, case-insensitive) in the string s."
        ""
        "assert count_vowels('hello') == 2\nassert count_vowels('') == 0\nassert count_vowels('AEIOU') == 5\nassert count_vowels('rhythm') == 0\n"
    ∷ row
        "Write a Python function `factorial(n)` that returns n! for non-negative integer n. You may assume n >= 0."
        ""
        "assert factorial(0) == 1\nassert factorial(1) == 1\nassert factorial(5) == 120\nassert factorial(10) == 3628800\n"
    ∷ row
        "Write a Python function `flatten(lst)` that takes a list of lists and returns a single flat list."
        ""
        "assert flatten([[1, 2], [3, 4]]) == [1, 2, 3, 4]\nassert flatten([[], [1], [2, 3]]) == [1, 2, 3]\nassert flatten([]) == []\nassert flatten([[5]]) == [5]\n"
    ∷ row
        "Write a Python function `is_palindrome(s)` that returns True if s is a palindrome (reads the same forwards and backwards), False otherwise. Comparison is case-sensitive."
        ""
        "assert is_palindrome('racecar') == True\nassert is_palindrome('hello') == False\nassert is_palindrome('') == True\nassert is_palindrome('a') == True\nassert is_palindrome('Aba') == False\n"
    ∷ row
        "Write a Python function `second_largest(nums)` that returns the second largest distinct value in the list. Assume len(nums) >= 2 and at least two distinct values exist."
        ""
        "assert second_largest([1, 2, 3]) == 2\nassert second_largest([3, 1, 4, 1, 5, 9, 2, 6]) == 6\nassert second_largest([10, 10, 9]) == 9\nassert second_largest([5, 1]) == 1\n"
    ∷ row
        "Write a Python function `sum_digits(n)` that returns the sum of all digits of a non-negative integer n."
        ""
        "assert sum_digits(0) == 0\nassert sum_digits(9) == 9\nassert sum_digits(123) == 6\nassert sum_digits(999) == 27\n"
    ∷ row
        "Write a Python function `is_prime(n)` that returns True if n is a prime number, False otherwise. n >= 2."
        ""
        "assert is_prime(2) == True\nassert is_prime(3) == True\nassert is_prime(4) == False\nassert is_prime(17) == True\nassert is_prime(100) == False\n"
    ∷ []
